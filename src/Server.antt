-- ===== src/Server.antt =====
-- server.rs: the server, and the scheduler worker that it spawns. The node and the queue that the
-- server, its worker and its endpoints share are one `RpcEndpoint`.
pub mod World
pub mod Worker
pub mod Interleaved
pub mod Turn
use nomad_rs.Base.{ℕ, Bool, true, false, ◌&&◌, Option, none, some, List, [], ◌∷◌, if◌then◌else◌}
use nomad_rs.Base.Int.{ℤ, pos, ltb_ℤ}
use nomad_rs.Constraint.{Matchers}
use nomad_rs.Error.{Error, Result, ok, err}
use nomad_rs.Alloc.{Allocation}
use nomad_rs.Eval.{Evaluation}
use nomad_rs.EvalQueue
use nomad_rs.EvalQueue.{EvalQueue, reap_expired, dequeue, block, ack, nack}
use nomad_rs.Fsm.{Command, upsert_alloc}
use nomad_rs.Raft.{RaftNode, bootstrap, is_leader, propose, state}
use nomad_rs.Scheduler.{Plan, process_eval, desired_count}
use nomad_rs.Scheduler.Float.{F64}
use nomad_rs.Config.{Config}
use nomad_rs.Client.{AgentStatus, initialized, running, stopped, is_running_status}
use nomad_rs.Rpc
use nomad_rs.Rpc.{RpcEndpoint, with_raft}

-- The worker's task between two accesses of what it shares: each constructor is a point of its
-- loop. `sleeping` is its await.
pub data Phase : Type 0 where
  polling checking sleeping reaping taking : Phase
  holding : Evaluation → Phase
  planned committed : Evaluation → Plan → Phase
  parking acking refused : Evaluation → Phase
  finished : Phase

-- `plan.allocs.iter().try_for_each(|a| node.propose(..))`.
unfoldable pub commit_allocs : List Allocation → RaftNode → RaftNode × Result (Unit {0})
commit_allocs [] n = (n, ok tt)
commit_allocs (a ∷ rest) n =
    let r = propose (upsert_alloc a) n in
    elim r.1 [ ok _ ↦ commit_allocs rest r.0 | err e ↦ (r.0, err e) ]

-- One minute, in nanoseconds.
abbrev pub visibility : ℕ
visibility = 60000000000

abbrev pub is_none {ℓ} : {A : Type ℓ} → List A → Bool
is_none [] = true
is_none (x ∷ xs) = false

-- The phase after `dequeue`.
abbrev pub taken : Result (Option Evaluation) → Phase
taken (ok (some ev)) = holding ev
taken (ok none) = sleeping
taken (err e) = finished

-- The phase after the commit.
abbrev pub settled : Evaluation → Plan → Result (Unit {0}) → Phase
settled ev plan (ok _) = committed ev plan
settled ev plan (err e) = refused ev

-- A method of the queue whose result is dropped.
abbrev pub after_queue {ℓ} :
    {A : Type ℓ} → (EvalQueue → EvalQueue × Result A) → RpcEndpoint → RpcEndpoint
after_queue f s = record s { eval_queue = (f s.eval_queue).0 }

module _ (lib : Matchers) (fl : F64) where
  -- One step of `scheduler_worker`, up to the next access of the flag, the node or the queue.
  unfoldable pub worker_step : ℕ → Bool → Phase → RpcEndpoint → Phase × RpcEndpoint
  unfolding commit_allocs
  worker_step now shutdown polling s = if shutdown then (finished, s) else (checking, s)
  worker_step now shutdown checking s = if is_leader s.raft then (reaping, s) else (sleeping, s)
  worker_step now shutdown sleeping s = (polling, s)
  worker_step now shutdown reaping s = (taking, after_queue (reap_expired now visibility) s)
  worker_step now shutdown taking s =
      let r = dequeue now s.eval_queue in (taken r.1, record s { eval_queue = r.0 })
  worker_step now shutdown (holding ev) s = (planned ev (process_eval lib fl ev (state s.raft)), s)
  worker_step now shutdown (planned ev plan) s =
      let r = commit_allocs plan.allocs s.raft in (settled ev plan r.1, record s { raft = r.0 })
  worker_step now shutdown (committed ev plan) s =
      if is_none plan.allocs && ltb_ℤ (pos 0) (desired_count ev (state s.raft))
      then (parking ev, s)
      else (acking ev, s)
  worker_step now shutdown (parking ev) s = (acking ev, after_queue (block ev) s)
  worker_step now shutdown (acking ev) s = (polling, after_queue (ack ev.id) s)
  worker_step now shutdown (refused ev) s = (polling, after_queue (nack ev.id) s)
  worker_step now shutdown finished s = (finished, s)

pub record Server : Type 0 where
  pub config : Config
  pub status : AgentStatus
  pub shared : RpcEndpoint
  pub shutdown : Bool
  pub worker : Option Phase
  -- The tasks that `abort` was called on and that have not reached an await since.
  pub aborted : List Phase

unfoldable pub new : Config → Server
unfolding bootstrap EvalQueue.new with_raft
new c = record {
  config = c;
  status = initialized;
  shared = with_raft EvalQueue.new (bootstrap c.node_name);
  shutdown = false;
  worker = none;
  aborted = [];
}

unfoldable pub is_running : Server → Bool
is_running s = is_running_status s.status

-- `endpoint` and `raft` hand out the shared node and queue.
unfoldable pub endpoint : Server → RpcEndpoint
unfolding with_raft
endpoint s = with_raft s.shared.eval_queue s.shared.raft

unfoldable pub run : Server → Server
run s = elim (is_running_status s.status) [
  | true ↦ s
  | false ↦ record s { shutdown = false; status = running; worker = some polling }
]

-- `take`, and `abort` of the handle.
abbrev pub abort : Option Phase → List Phase → List Phase
abort none xs = xs
abort (some p) xs = p ∷ xs

unfoldable pub stop : Server → Server
stop s = record s {
  shutdown = true;
  aborted = abort s.worker s.aborted;
  worker = none;
  status = stopped;
}
