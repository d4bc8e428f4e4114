-- ===== src/Examples/Cluster.antt =====
-- A server, and requests at its endpoint.
use nomad_rs.Base.{◌≡◌, refl, ◌++◌, map, none, List, [], ◌∷◌, false, ◌∙◌}
use nomad_rs.Base.HashMap.{get}
use nomad_rs.Error.{ok, err, validation, job_not_found}
use nomad_rs.Fsm
use nomad_rs.Fsm.{upsert_alloc, upsert_node, upsert_job, apply}
use nomad_rs.State
use nomad_rs.Raft
use nomad_rs.Raft.{RaftNode, leader, state, propose, bootstrap}
use nomad_rs.Raft.Replay.{replay}
use nomad_rs.Scheduler.{process_eval}
use nomad_rs.State.Valid.{new-IsValid}
use nomad_rs.Config.{Config, info}
use nomad_rs.Agent
use nomad_rs.Agent.Lifecycle.{Ends, run-Ends}
use nomad_rs.Rpc.{
  RpcEndpoint, Clock, job_register, node_register, job_deregister, handle, committed, commit,
}
use nomad_rs.Rpc.Sound.{Sound, propose-Sound, role-propose}
use nomad_rs.Rpc.Outcome.{Registers, register-Registers, handle_failed}
use nomad_rs.Server
use nomad_rs.Server.{polling, holding}
use nomad_rs.Server.World.{Event, requests, proceeds, works, winds_down, runs, stops}
use nomad_rs.Server.Turn.{turn, turn-commits}
use nomad_rs.Examples.Queues.{delivered, delivered-Inv}
use nomad_rs.Examples.{matchers, integers, shop, node_1, eval_1}

abbrev at_5 : Clock
at_5 = record { system = 1000; instant = 5 }

abbrev settings : Config
settings = record {
  data_dir = "/data";
  log_dir = "/log";
  log_level = info;
  bind_addr = "0.0.0.0:4646";
  datacenter = "dc1";
  node_name = "s1";
  region = "global";
  config_file = none;
}

-- The worker takes a step between a commit and its access of the queue.
abbrev history : List Event
history =
    runs
    ∷ requests (node_register node_1)
    ∷ requests (job_register shop)
    ∷ works 6
    ∷ proceeds at_5 1
    ∷ proceeds at_5 0
    ∷ works 7
    ∷ works 8
    ∷ works 9
    ∷ stops
    ∷ winds_down 10 0
    ∷ runs
    ∷ []

-- A leader that knows a node and a job, with an evaluation in flight.
abbrev knowing : RaftNode
knowing = (propose (upsert_job shop) (propose (upsert_node node_1) (bootstrap "s1")).0).0

abbrev busy : RpcEndpoint
busy = record { eval_queue = record { inner = delivered; poisoned = false }; raft = knowing }

knowing-leads : knowing.role ≡ leader
unfolding bootstrap
knowing-leads =
    role-propose (upsert_job shop) (propose (upsert_node node_1) (bootstrap "s1")).0
    ∙ role-propose (upsert_node node_1) (bootstrap "s1")

busy-Sound : Sound busy
unfolding bootstrap Raft.new replay Fsm.new
busy-Sound = propose-Sound (upsert_job shop) _ (
    propose-Sound (upsert_node node_1)
      (record {
        eval_queue = record { inner = delivered; poisoned = false };
        raft = bootstrap "s1";
      })
      (record { replays = refl; valid = new-IsValid; queue = delivered-Inv }))

turn-commits_example :
    let r = turn matchers integers 6 (λ n. n) false (holding eval_1) busy in
    (r.0 ≡ polling)
    × (r.1.raft.log
        ≡ busy.raft.log
          ++ map
              (λ a. upsert_alloc a)
              (process_eval matchers integers eval_1 (state busy.raft)).allocs)
    × (get eval_1.id r.1.eval_queue.inner.in_flight ≡ none)
turn-commits_example =
    turn-commits matchers integers (λ n. n) false eval_1 busy refl knowing-leads busy-Sound

register-Registers_example : Registers at_5 shop busy (handle at_5 (job_register shop) busy)
register-Registers_example = register-Registers at_5 shop busy

-- A job that is not there.
abbrev pub idle : RpcEndpoint
idle = record { eval_queue = record { inner = delivered; poisoned = false }; raft = bootstrap "s1" }

missing-refused :
    (handle at_5 (job_deregister "none") idle).1 ≡ err (validation (job_not_found "none"))
unfolding handle committed commit propose bootstrap Raft.new apply State.delete_job get Fsm.new
    State.new
missing-refused = refl

handle_failed_example : (handle at_5 (job_deregister "none") idle).0 ≡ idle
handle_failed_example = handle_failed at_5 idle refl (job_deregister "none") missing-refused

run-Ends_example : Ends (ok tt) (Agent.new settings) (Agent.run (ok tt) (Agent.new settings))
run-Ends_example = run-Ends (ok tt) (Agent.new settings)
