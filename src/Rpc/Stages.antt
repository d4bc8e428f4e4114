-- ===== src/Rpc/Stages.antt =====
-- rpc.rs: `handle` in its two accesses of what the endpoints share. The lock of the node is given
-- back when `commit` returns, and the queue is locked later: others may come between the two.
use nomad_rs.Base.{◌≡◌, refl, Option, none, some, ◌∙◌}
use nomad_rs.Base.Int.{pos}
use nomad_rs.Error.{Result, ok, err, and_then}
use nomad_rs.Jobspec.{validate_job}
use nomad_rs.Eval
use nomad_rs.EvalQueue.{enqueue, dequeue, unblock_all}
use nomad_rs.EvalQueue.Methods.{Moves, Moves-Inv, enqueue-Moves, dequeue-Moves, unblock_all-Moves}
use nomad_rs.Fsm.{Command, upsert_job, deregister_job, upsert_node}
use nomad_rs.Raft.{RaftRole, propose}
use nomad_rs.EvalQueue.{EvalQueue}
use nomad_rs.EvalQueue.Reached.{Reached, Moves-Reached}
use nomad_rs.Rpc.{
  Request, Response, RpcEndpoint, Clock, job_registered, ack, eval, job_register, job_deregister,
  node_register, eval_dequeue, on_raft, commit, committed, respond, handle, eval_for,
}
use nomad_rs.Rpc.Sound.{Sound, propose-Sound, role-propose, commit-keeps, respond-keeps}

-- Where a handler is after its first access: it has its answer, or it goes on to the queue.
pub data Stage : Type 0 where
  answered : Result Response → Stage
  queueing : Stage

-- What a handler does with the result of `commit`.
abbrev pub staged : Result (Option Response) → Stage
staged (err e) = answered (err e)
staged (ok (some resp)) = answered (ok resp)
staged (ok none) = queueing

unfoldable pub committing : Command → RpcEndpoint → RpcEndpoint × Stage
unfolding commit
committing c s = ((commit c s).0, staged (commit c s).1)

-- Up to the end of `commit`.
unfoldable pub arrive : Request → RpcEndpoint → RpcEndpoint × Stage
unfolding committing
arrive (job_register j) s = elim (validate_job j) [
  | err x ↦ (s, answered (err x))
  | ok _ ↦ committing (upsert_job j) s
]
arrive (job_deregister name) s = committing (deregister_job name) s
arrive (node_register n) s = committing (upsert_node n) s
arrive (eval_dequeue schedulers) s = (s, queueing)

-- From there on: the call of the queue, and the response.
unfoldable pub proceed : Clock → Request → RpcEndpoint → RpcEndpoint × Result Response
unfolding respond
proceed c (job_register j) s =
    let e = eval_for c j.name j.priority Eval.job_register in
    respond (enqueue e) (λ _. job_registered e.id) s
proceed c (job_deregister name) s =
    respond (enqueue (eval_for c name (pos 50) Eval.job_deregister)) (λ _. ack) s
proceed c (node_register n) s = respond unblock_all (λ _. ack) s
proceed c (eval_dequeue schedulers) s = respond (dequeue c.instant) eval s

-- Both accesses, with nothing between them.
pub in_one : Clock → Request → RpcEndpoint × Stage → RpcEndpoint × Result Response
in_one c r (s, answered x) = (s, x)
in_one c r (s, queueing) = proceed c r s

-- The two accesses, with nothing between them, are `handle`.
pub handle-in_one :
    (c : Clock) (r : Request) (s : RpcEndpoint) → handle c r s ≡ in_one c r (arrive r s)
unfolding in_one proceed committed commit committing handle validate_job arrive
handle-in_one c r s = by_request r
  where
    go :
        (r : Request) (x : RpcEndpoint × Result (Option Response))
        → and_then x (λ forwarded t. elim forwarded as (λ _. RpcEndpoint × Result Response) [
          | some resp ↦ (t, ok resp)
          | none ↦ proceed c r t
        ])
          ≡ in_one c r (x.0, staged x.1)
    go r (t, err e) = refl
    go r (t, ok (some resp)) = refl
    go r (t, ok none) = refl

    by_request : (r : Request) → handle c r s ≡ in_one c r (arrive r s)
    by_request (job_register j) = by_check (validate_job j)
      where
        by_check :
            (v : Result (Unit {0}))
            → (elim v as (λ _. RpcEndpoint × Result Response) [
              | err x ↦ (s, err x)
              | ok _ ↦ committed (upsert_job j) (λ t. proceed c (job_register j) t) s
            ])
              ≡ in_one c (job_register j) (elim v as (λ _. RpcEndpoint × Stage) [
                | err x ↦ (s, answered (err x))
                | ok _ ↦ committing (upsert_job j) s
              ])
        by_check (err x) = refl
        by_check (ok u) = go (job_register j) (commit (upsert_job j) s)
    by_request (job_deregister name) = go (job_deregister name) (commit (deregister_job name) s)
    by_request (node_register n) = go (node_register n) (commit (upsert_node n) s)
    by_request (eval_dequeue schedulers) = refl

module _ (P : RpcEndpoint → Type 0)
    (proposed : (c : Command) (s : RpcEndpoint) → P s → P (on_raft (propose c) s).0)
    (called : (q : EvalQueue) (s : RpcEndpoint)
      → P s
      → Moves s.eval_queue q
      → P (record s { eval_queue = q })) where
  validated-keeps :
      (v : Result (Unit {0})) (k : RpcEndpoint × Stage) (s : RpcEndpoint)
      → P s
      → P k.0
      → P (elim v as (λ _. RpcEndpoint × Stage) [ err x ↦ (s, answered (err x)) | ok _ ↦ k ]).0
  validated-keeps (err x) k s h g = h
  validated-keeps (ok u) k s h g = g

  arrive-keeps : (r : Request) (s : RpcEndpoint) → P s → P (arrive r s).0
  unfolding arrive
  arrive-keeps (job_register j) s h =
      validated-keeps (validate_job j) (committing (upsert_job j) s) s h
        (commit-keeps P proposed called (upsert_job j) s h)
  arrive-keeps (job_deregister name) s h = commit-keeps P proposed called (deregister_job name) s h
  arrive-keeps (node_register n) s h = commit-keeps P proposed called (upsert_node n) s h
  arrive-keeps (eval_dequeue schedulers) s h = h

  proceed-keeps : (c : Clock) (r : Request) (s : RpcEndpoint) → P s → P (proceed c r s).0
  unfolding proceed
  proceed-keeps c (job_register j) s h =
      let e = eval_for c j.name j.priority Eval.job_register in
      respond-keeps P proposed called (enqueue e) (λ _. job_registered e.id) s h
        (λ q. enqueue-Moves q e)
  proceed-keeps c (job_deregister name) s h =
      let e = eval_for c name (pos 50) Eval.job_deregister in
      respond-keeps P proposed called (enqueue e) (λ _. ack) s h (λ q. enqueue-Moves q e)
  proceed-keeps c (node_register n) s h =
      respond-keeps P proposed called unblock_all (λ _. ack) s h unblock_all-Moves
  proceed-keeps c (eval_dequeue schedulers) s h =
      respond-keeps P proposed called (dequeue c.instant) eval s h (λ q. dequeue-Moves q c.instant)

-- Both accesses keep a sound endpoint sound, and the role of its node.
pub arrive-Sound : (r : Request) (s : RpcEndpoint) → Sound s → Sound (arrive r s).0
arrive-Sound = arrive-keeps Sound propose-Sound (λ q s h k. record {
  replays = h.replays;
  valid = h.valid;
  queue = Moves-Inv s.eval_queue q k h.queue;
})

pub proceed-Sound : (c : Clock) (r : Request) (s : RpcEndpoint) → Sound s → Sound (proceed c r s).0
proceed-Sound = proceed-keeps Sound propose-Sound (λ q s h k. record {
  replays = h.replays;
  valid = h.valid;
  queue = Moves-Inv s.eval_queue q k h.queue;
})

pub role-arrive :
    (role : RaftRole) (r : Request) (s : RpcEndpoint)
    → s.raft.role ≡ role
    → (arrive r s).0.raft.role ≡ role
role-arrive role =
    arrive-keeps (λ s. s.raft.role ≡ role) (λ c s h. role-propose c s.raft ∙ h) (λ q s h k. h)

pub role-proceed :
    (role : RaftRole) (c : Clock) (r : Request) (s : RpcEndpoint)
    → s.raft.role ≡ role
    → (proceed c r s).0.raft.role ≡ role
role-proceed role =
    proceed-keeps (λ s. s.raft.role ≡ role) (λ c s h. role-propose c s.raft ∙ h) (λ q s h k. h)

-- Both accesses keep a queue that calls on a new one led to.
pub arrive-Reached :
    (r : Request) (s : RpcEndpoint)
    → Reached s.eval_queue.inner
    → Reached (arrive r s).0.eval_queue.inner
arrive-Reached =
    arrive-keeps (λ s. Reached s.eval_queue.inner) (λ c s h. h)
      (λ q s h k. Moves-Reached s.eval_queue q k h)

pub proceed-Reached :
    (c : Clock) (r : Request) (s : RpcEndpoint)
    → Reached s.eval_queue.inner
    → Reached (proceed c r s).0.eval_queue.inner
proceed-Reached =
    proceed-keeps (λ s. Reached s.eval_queue.inner) (λ c s h. h)
      (λ q s h k. Moves-Reached s.eval_queue q k h)
