-- ===== src/Rpc/Outcome.antt =====
-- rpc.rs: what a request returns, and what it leaves changed.
use nomad_rs.Base.{
  true, false, ◌≡◌, refl, subst, sym, Option, none, some, arith, ◌⊎◌, inl, inr, Bool-cases,
  Option-cases, ℕ,
}
use nomad_rs.Base.HashMap.{get-insert_self}
use nomad_rs.Error.{Error, Result, ok, err, and_then, runtime, queue_poisoned}
use nomad_rs.Jobspec.{Job, validate_job}
use nomad_rs.Eval
use nomad_rs.Eval.{Evaluation}
use nomad_rs.Base.Int.{pos}
use nomad_rs.EvalQueue.{
  pop, Inner, locked, enqueue, dequeue, unblock_all, enqueue_inner, dequeue_inner, unblock_inner,
}
use nomad_rs.Fsm.{Command, apply, upsert_job}
use nomad_rs.State
use nomad_rs.State.{get_job}
use nomad_rs.Raft.{RaftNode, is_leader, propose, push}
use nomad_rs.Rpc.{
  RpcEndpoint, Request, job_register, job_deregister, node_register, eval_dequeue, Response,
  job_registered, not_leader, ack, eval, Clock, commit, committed, respond, eval_for, eval_id_for,
  handle,
}
use nomad_rs.Rpc.Commits.{Commits, forwards, refuses, applies, commit-Commits}

-- Without an error, or without a change.
abbrev Atomic {ℓ} : {A : Type ℓ} → RpcEndpoint → RpcEndpoint × Result A → Type ℓ
Atomic {A = A} s r = ((a : A) × (r.1 ≡ ok a)) ⊎ (r.0 ≡ s)

committed-Atomic :
    (c : Command) (rest : RpcEndpoint → RpcEndpoint × Result Response) (s : RpcEndpoint)
    → ((n : RaftNode) → (a : Response) × ((rest (record s { raft = n })).1 ≡ ok a))
    → Atomic s (committed c rest s)
unfolding committed
committed-Atomic c rest s total = by_case (commit c s) (commit-Commits c s)
  where
    by_case :
        (r : RpcEndpoint × Result (Option Response))
        → Commits c s r
        → Atomic s (
            and_then r λ forwarded t. elim forwarded as (λ _. RpcEndpoint × Result Response) [
              | some resp ↦ (t, ok resp)
              | none ↦ rest t
            ])
    by_case _ (forwards e) = inr refl
    by_case _ (refuses x l e) = inr refl
    by_case _ (applies l e) = inl (total (propose c s.raft).0)

respond_open :
    {A : Type 0} (body : Inner → Inner × Result A) (resp : A → Response) (s : RpcEndpoint) (a : A)
    → s.eval_queue.poisoned ≡ false
    → (body s.eval_queue.inner).1 ≡ ok a
    → (respond (locked body) resp s).1 ≡ ok (resp a)
unfolding respond locked
respond_open body resp s a h e = ground (arith, h, e)

dequeue_inner-ok :
    (now : ℕ) (i : Inner) → (o : Option Evaluation) × ((dequeue_inner now i).1 ≡ ok o)
unfolding dequeue_inner
dequeue_inner-ok now i = elim (Option-cases (pop i.heap)) [
  | inl e ↦ (none, rw (e, dequeue_inner))
  | inr (p, e) ↦ (some p.0.eval, rw (e, dequeue_inner))
]

module _ (c : Clock) (s : RpcEndpoint) (sane : s.eval_queue.poisoned ≡ false) where
  handle-Atomic : (r : Request) → Atomic s (handle c r s)
  unfolding handle enqueue dequeue unblock_all enqueue_inner unblock_inner
  handle-Atomic (job_register j) = by_result (validate_job j) (
      committed-Atomic _ _ s
        (λ n. (_, respond_open (enqueue_inner e) (λ _. job_registered e.id) _ tt sane refl)))
    where
      e : Evaluation
      e = eval_for c j.name j.priority Eval.job_register

      by_result :
          (r : Result (Unit {0})) {k : RpcEndpoint × Result Response}
          → Atomic s k
          → Atomic s
              (elim r as (λ _. RpcEndpoint × Result Response) [ err x ↦ (s, err x) | ok _ ↦ k ])
      by_result (err x) h = inr refl
      by_result (ok u) h = h
  handle-Atomic (job_deregister name) = committed-Atomic _ _ s (λ n. (
    _,
    respond_open (enqueue_inner (eval_for c name (pos 50) Eval.job_deregister)) (λ _. ack) _ tt sane
        refl,
  ))
  handle-Atomic (node_register n) =
      committed-Atomic _ _ s
        (λ n. (_, respond_open unblock_inner (λ _. ack) (record s { raft = n }) _ sane refl))
  handle-Atomic (eval_dequeue schedulers) =
      let (o, e) = dequeue_inner-ok c.instant s.eval_queue.inner in
      inl (_, respond_open (dequeue_inner c.instant) eval s o sane e)

  -- On a queue that is not poisoned, a request that returns an error leaves the endpoint as it was:
  -- the node, its log and its store, and the queue.
  pub handle_failed : (r : Request) {x : Error} → (handle c r s).1 ≡ err x → (handle c r s).0 ≡ s
  handle_failed r e = elim (handle-Atomic r) [ inl (a, p) ↦ absurd (ground arith) | inr q ↦ q ]

-- What the registration of a job returns and leaves.
pub data Registers (c : Clock) (j : Job) (s : RpcEndpoint)
    : RpcEndpoint × Result Response → Type 0 where
  invalid : (x : Error) → validate_job j ≡ err x → Registers c j s (s, err x)
  forwarded :
      validate_job j ≡ ok tt → is_leader s.raft ≡ false → Registers c j s (s, ok (not_leader none))
  registered :
      (t : RpcEndpoint)
      → validate_job j ≡ ok tt
      → is_leader s.raft ≡ true
      → s.eval_queue.poisoned ≡ false
      → get_job j.name t.raft.fsm.state ≡ some j
      → t.raft.log ≡ push (upsert_job j) s.raft.log
      → t.eval_queue ≡ (enqueue (eval_for c j.name j.priority Eval.job_register) s.eval_queue).0
      → Registers c j s (t, ok (job_registered (eval_id_for c.system j.name)))
  half_done :
      (t : RpcEndpoint)
      → validate_job j ≡ ok tt
      → is_leader s.raft ≡ true
      → s.eval_queue.poisoned ≡ true
      → get_job j.name t.raft.fsm.state ≡ some j
      → t.eval_queue ≡ s.eval_queue
      → Registers c j s (t, err (runtime queue_poisoned))

stored :
    (j : Job) (n : RaftNode)
    → is_leader n ≡ true
    → validate_job j ≡ ok tt
    → (get_job j.name (propose (upsert_job j) n).0.fsm.state ≡ some j)
      × ((propose (upsert_job j) n).0.log ≡ push (upsert_job j) n.log)
      × ((propose (upsert_job j) n).1 ≡ ok tt)
unfolding propose apply State.upsert_job get_job
stored j n l v = ground (arith, get-insert_self j.name j n.fsm.state.jobs)

enqueue_sane :
    (e : Evaluation) (resp : Unit {0} → Response) (t : RpcEndpoint)
    → t.eval_queue.poisoned ≡ false
    → respond (enqueue e) resp t
      ≡ (record t { eval_queue = (enqueue e t.eval_queue).0 }, ok (resp tt))
unfolding respond enqueue locked enqueue_inner
enqueue_sane e resp t h = ground (arith, h)

enqueue_broken :
    (e : Evaluation) (resp : Unit {0} → Response) (t : RpcEndpoint)
    → t.eval_queue.poisoned ≡ true
    → respond (enqueue e) resp t ≡ (t, err (runtime queue_poisoned))
unfolding respond enqueue locked
enqueue_broken e resp t h = ground (arith, h)

-- The registration of any job at any endpoint is one of four: an invalid job is refused with the
-- error of its validation and nothing changed; a follower forwards a valid one with nothing changed;
-- a leader with a sound queue stores the job, logs it, enqueues its evaluation and returns the
-- evaluation's id; a leader with a poisoned queue stores the job and returns an error.
pub register-Registers :
    (c : Clock) (j : Job) (s : RpcEndpoint) → Registers c j s (handle c (job_register j) s)
unfolding handle committed eval_for
register-Registers c j s = by_valid (validate_job j) refl
  where
    e : Evaluation
    e = eval_for c j.name j.priority Eval.job_register

    queued : RpcEndpoint → RpcEndpoint × Result Response
    queued = respond (enqueue e) (λ _. job_registered e.id)

    by_commit :
        (r : RpcEndpoint × Result (Option Response))
        → validate_job j ≡ ok tt
        → Commits (upsert_job j) s r
        → Registers c j s (
            and_then r λ f t. elim f as (λ _. RpcEndpoint × Result Response) [
              | some x ↦ (t, ok x)
              | none ↦ queued t
            ])
    by_commit _ v (forwards l) = forwarded v l
    by_commit _ v (refuses x l q) =
        let taken = (stored j s.raft l v).2 in absurd (ground (arith, q, taken))
    by_commit _ v (applies l q) =
        let t : RpcEndpoint = record s { raft = (propose (upsert_job j) s.raft).0 } in
        let (kept, logged, _) = stored j s.raft l v in
        elim (Bool-cases s.eval_queue.poisoned) [
          | inl p ↦
              subst (Registers c j s) (sym (enqueue_broken e (λ _. job_registered e.id) t p))
                (half_done t v l p kept refl)
          | inr p ↦
              subst (Registers c j s) (sym (enqueue_sane e (λ _. job_registered e.id) t p))
                (registered _ v l p kept logged refl)
        ]

    by_valid :
        (r : Result (Unit {0}))
        → validate_job j ≡ r
        → Registers c j s (elim r as (λ _. RpcEndpoint × Result Response) [
          | err x ↦ (s, err x)
          | ok _ ↦ committed (upsert_job j) queued s
        ])
    by_valid (err x) v = invalid x v
    by_valid (ok u) v = by_commit (commit (upsert_job j) s) v (commit-Commits (upsert_job j) s)
