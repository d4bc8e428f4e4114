-- ===== src/Rpc.antt =====
-- rpc.rs: the handler of requests. The node and the queue behind the endpoint's shared handles are
-- its fields; the clocks are an argument.
pub mod Sound
pub mod Commits
pub mod Outcome
pub mod Wire
pub mod Stages
use nomad_rs.Base.{ℕ, true, false, String, Option, none, some, List, decimal}
use Prim.Native.String.{◌++◌}
use nomad_rs.Base.Int.{ℤ, pos}
use nomad_rs.Error.{Result, ok, err, and_then}
use nomad_rs.Jobspec.{Job, validate_job}
use nomad_rs.Node.{Node}
use nomad_rs.Eval
use nomad_rs.Eval.{Evaluation, EvalTrigger}
use nomad_rs.EvalQueue.{EvalQueue, enqueue, dequeue, unblock_all}
use nomad_rs.Fsm.{Command, upsert_job, deregister_job, upsert_node}
use nomad_rs.Raft.{RaftNode, bootstrap, is_leader, leader_addr, propose}

pub data Request : Type 0 where
  job_register : Job → Request
  job_deregister : String → Request
  node_register : Node → Request
  eval_dequeue : List String → Request

pub data Response : Type 0 where
  job_registered : String → Response
  ack : Response
  eval : Option Evaluation → Response
  not_leader : Option String → Response

pub record RpcEndpoint : Type 0 where
  pub eval_queue : EvalQueue
  pub raft : RaftNode

-- What the clocks read during a call: `SystemTime::now()` and `Instant::now()`, in nanoseconds.
pub record Clock : Type 0 where
  pub system : ℕ
  pub instant : ℕ

unfoldable pub new : EvalQueue → RpcEndpoint
unfolding bootstrap
new q = record { eval_queue = q; raft = bootstrap "rpc-local" }

unfoldable pub with_raft : EvalQueue → RaftNode → RpcEndpoint
with_raft q n = record { eval_queue = q; raft = n }

-- A method of the node or of the queue, called through the endpoint.
abbrev pub on_raft {ℓ} :
    {A : Type ℓ} → (RaftNode → RaftNode × Result A) → RpcEndpoint → RpcEndpoint × Result A
on_raft f s = (record s { raft = (f s.raft).0 }, (f s.raft).1)

abbrev pub on_queue {ℓ} :
    {A : Type ℓ} → (EvalQueue → EvalQueue × Result A) → RpcEndpoint → RpcEndpoint × Result A
on_queue f s = (record s { eval_queue = (f s.eval_queue).0 }, (f s.eval_queue).1)

unfoldable pub commit : Command → RpcEndpoint → RpcEndpoint × Result (Option Response)
commit c s = elim (is_leader s.raft) [
  | false ↦ (s, ok (some (not_leader (leader_addr s.raft))))
  | true ↦ and_then (on_raft (propose c) s) (λ _ t. (t, ok none))
]

unfoldable pub eval_id_for : ℕ → String → String
eval_id_for nanos name = "eval-" ++ (name ++ ("-" ++ decimal nanos))

-- The evaluation that a registration or a deregistration creates, under a fresh id.
unfoldable pub eval_for : Clock → String → ℤ → EvalTrigger → Evaluation
eval_for c name priority trigger = record {
  id = eval_id_for c.system name;
  job_id = name;
  priority = priority;
  trigger = trigger;
  status = Eval.pending;
}

-- `if let Some(resp) = self.commit(command)? { return Ok(resp); }` before the rest of the body.
unfoldable pub committed :
    Command
    → (RpcEndpoint → RpcEndpoint × Result Response)
    → RpcEndpoint
    → RpcEndpoint × Result Response
unfolding commit
committed c rest s =
    and_then (commit c s) λ forwarded t. elim forwarded [ some resp ↦ (t, ok resp) | none ↦ rest t ]

-- A call on the queue, and the response after it.
unfoldable pub respond {ℓ} :
    {A : Type ℓ}
    → (EvalQueue → EvalQueue × Result A)
    → (A → Response)
    → RpcEndpoint
    → RpcEndpoint × Result Response
respond f resp s = and_then (on_queue f s) λ a t. (t, ok (resp a))

unfoldable pub handle : Clock → Request → RpcEndpoint → RpcEndpoint × Result Response
unfolding committed respond
handle c (job_register j) s =
    let e = eval_for c j.name j.priority Eval.job_register in
    elim (validate_job j) [
      | err x ↦ (s, err x)
      | ok _ ↦ committed (upsert_job j) (respond (enqueue e) (λ _. job_registered e.id)) s
    ]
handle c (job_deregister name) s =
    committed (deregister_job name)
      (respond (enqueue (eval_for c name (pos 50) Eval.job_deregister)) (λ _. ack)) s
handle c (node_register n) s = committed (upsert_node n) (respond unblock_all (λ _. ack)) s
handle c (eval_dequeue schedulers) s = respond (dequeue c.instant) eval s
