-- ===== src/Rpc/Sound.antt =====
-- rpc.rs: what a request leaves of the node and of the queue.
use nomad_rs.Base.{◌∙◌, Bool-cases, inl, inr, ◌≡◌, Option, none, some, arith}
use nomad_rs.Error.{Result, ok, err, and_then-keeps}
use nomad_rs.Jobspec.{validate_job}
use nomad_rs.Eval
use nomad_rs.Base.Int.{pos}
use nomad_rs.EvalQueue.{EvalQueue, enqueue, dequeue, unblock_all}
use nomad_rs.EvalQueue.Methods.{Moves, Moves-Inv, enqueue-Moves, dequeue-Moves, unblock_all-Moves}
use nomad_rs.EvalQueue.Delivery.{Inv}
use nomad_rs.Fsm.{Command}
use nomad_rs.State.Valid.{IsValid}
use nomad_rs.Raft.{RaftNode, RaftRole, is_leader, propose}
use nomad_rs.Raft.Replay.{Replays, propose-Replays, propose-IsValid}
use nomad_rs.Rpc.{
  eval_for, job_registered, ack, eval, job_register, job_deregister, node_register, eval_dequeue,
  on_raft, on_queue, RpcEndpoint, Request, Response, Clock, commit, committed, respond, handle,
}

-- The log replays to the state machine, its store is valid, and the queue's counts are in order.
pub record Sound (s : RpcEndpoint) : Type 0 where
  pub replays : Replays s.raft
  pub valid : IsValid s.raft.fsm.state
  pub queue : Inv s.eval_queue.inner

pub propose-Sound : (c : Command) (s : RpcEndpoint) → Sound s → Sound (on_raft (propose c) s).0
propose-Sound c s h = record {
  replays = propose-Replays c s.raft h.replays;
  valid = propose-IsValid c s.raft h.valid;
  queue = h.queue;
}

-- What every proposal keeps, and every method of the queue that makes at most one call.
module _ (P : RpcEndpoint → Type 0)
    (proposed : (c : Command) (s : RpcEndpoint) → P s → P (on_raft (propose c) s).0)
    (called : (q : EvalQueue) (s : RpcEndpoint)
      → P s
      → Moves s.eval_queue q
      → P (record s { eval_queue = q })) where
  pub commit-keeps : (c : Command) (s : RpcEndpoint) → P s → P (commit c s).0
  unfolding commit
  commit-keeps c s h = elim (Bool-cases (is_leader s.raft)) [
    | inl e ↦
        rw (e, commit) (and_then-keeps P (on_raft (propose c) s) _ (proposed c s h) (λ _ t k. k))
    | inr e ↦ rw (e, commit) h
  ]

  pub respond-keeps :
      {A : Type 0} (f : EvalQueue → EvalQueue × Result A) (resp : A → Response) (s : RpcEndpoint)
      → P s
      → ((q : EvalQueue) → Moves q (f q).0)
      → P (respond f resp s).0
  unfolding respond
  respond-keeps f resp s h k =
      and_then-keeps P (on_queue f s) _ (called _ s h (k s.eval_queue)) (λ a t g. g)

  committed-keeps :
      (c : Command) (rest : RpcEndpoint → RpcEndpoint × Result Response) (s : RpcEndpoint)
      → P s
      → ((t : RpcEndpoint) → P t → P (rest t).0)
      → P (committed c rest s).0
  unfolding committed
  committed-keeps c rest s h k = and_then-keeps P (commit c s) _ (commit-keeps c s h) after
    where
      after :
          (r : Option Response) (t : RpcEndpoint)
          → P t
          → P
              (elim r as (λ _. RpcEndpoint × Result Response) [
                | some x ↦ (t, ok x)
                | none ↦ rest t
              ]).0
      after (some x) t g = g
      after none t g = k t g

  validated-keeps :
      (r : Result (Unit {0})) (k : RpcEndpoint × Result Response) (s : RpcEndpoint)
      → P s
      → P k.0
      → P (elim r as (λ _. RpcEndpoint × Result Response) [ err x ↦ (s, err x) | ok _ ↦ k ]).0
  validated-keeps (err x) k s h g = h
  validated-keeps (ok u) k s h g = g

  pub handle-keeps : (c : Clock) (r : Request) (s : RpcEndpoint) → P s → P (handle c r s).0
  unfolding handle
  handle-keeps c (job_register j) s h =
      let e = eval_for c j.name j.priority Eval.job_register in
      validated-keeps (validate_job j) _ s h (
        committed-keeps _ _ s h (λ t g.
          respond-keeps (enqueue e) (λ _. job_registered e.id) t g (λ q. enqueue-Moves q e)))
  handle-keeps c (job_deregister name) s h =
      let e = eval_for c name (pos 50) Eval.job_deregister in
      committed-keeps _ _ s h
        (λ t g. respond-keeps (enqueue e) (λ _. ack) t g (λ q. enqueue-Moves q e))
  handle-keeps c (node_register n) s h =
      committed-keeps _ _ s h (λ t g. respond-keeps unblock_all (λ _. ack) t g unblock_all-Moves)
  handle-keeps c (eval_dequeue schedulers) s h =
      respond-keeps (dequeue c.instant) eval s h (λ q. dequeue-Moves q c.instant)

-- Every request keeps the endpoint sound.
pub handle-Sound : (c : Clock) (r : Request) (s : RpcEndpoint) → Sound s → Sound (handle c r s).0
handle-Sound = handle-keeps Sound propose-Sound (λ q s h k. record {
  replays = h.replays;
  valid = h.valid;
  queue = Moves-Inv s.eval_queue q k h.queue;
})

pub role-propose : (c : Command) (n : RaftNode) → (propose c n).0.role ≡ n.role
unfolding propose
role-propose c n = ground arith

pub role-handle :
    (role : RaftRole) (c : Clock) (r : Request) (s : RpcEndpoint)
    → s.raft.role ≡ role
    → (handle c r s).0.raft.role ≡ role
role-handle role =
    handle-keeps (λ s. s.raft.role ≡ role) (λ c s h. role-propose c s.raft ∙ h) (λ q s h k. h)
