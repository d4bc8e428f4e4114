-- ===== src/Server/Turn.antt =====
-- server.rs: the worker's turn with an evaluation, when nothing comes between its steps.
use nomad_rs.Base.{
  ℕ, zero, suc, Bool, true, false, ◌≡◌, refl, ap, ◌∙◌, String, none, ◌++◌, map, arith, inl, inr,
  Bool-cases, if◌then◌else◌, ◌&&◌,
}
use nomad_rs.Base.Int.{pos, ltb_ℤ}
use nomad_rs.Base.HashMap.{get, get-remove_self}
use nomad_rs.Constraint.{Matchers}
use nomad_rs.Error.{Result, ok, err}
use nomad_rs.Eval.{Evaluation}
use nomad_rs.EvalQueue.{EvalQueue, locked, ack, ack_inner, block}
use nomad_rs.EvalQueue.Delivery.{Inv}
use nomad_rs.EvalQueue.Methods.{block-Inv}
use nomad_rs.Fsm.{upsert_alloc}
use nomad_rs.Raft.{leader, state}
use nomad_rs.Scheduler.{Plan, process_eval, desired_count}
use nomad_rs.Scheduler.Float.{F64}
use nomad_rs.Scheduler.Drain.Accepts.{plan-Valid}
use nomad_rs.Rpc.{RpcEndpoint}
use nomad_rs.Rpc.Sound.{Sound}
use nomad_rs.Server.{
  Phase, polling, holding, committed, parking, acking, settled, is_none, commit_allocs, worker_step,
  after_queue,
}
use nomad_rs.Server.Worker.{Committed, commit_allocs-Committed}

-- The loop is at its head.
abbrev is_polling : Phase → Bool
is_polling p = elim p [ polling ↦ true | _ ↦ false ]

module _ (lib : Matchers) (fl : F64) where
  -- The task's steps until it is back at the head of its loop.
  pub turn : ℕ → (ℕ → ℕ) → Bool → Phase → RpcEndpoint → Phase × RpcEndpoint
  turn zero clock shutdown p s = (p, s)
  turn (suc fuel) clock shutdown p s =
      let r = worker_step lib fl (clock fuel) shutdown p s in
      let rest = turn fuel clock shutdown r.0 r.1 in if is_polling p then (p, s) else rest

-- The evaluation is in flight no more, and nothing else of the cluster is changed.
record Acked (ev : Evaluation) (s : RpcEndpoint) (r : Phase × RpcEndpoint) : Type 0 where
  idle : r.0 ≡ polling
  raft : r.1.raft ≡ s.raft
  delivered : get ev.id r.1.eval_queue.inner.in_flight ≡ none

in_flight-ack :
    (id : String) (q : EvalQueue)
    → q.poisoned ≡ false
    → Inv q.inner
    → get id (ack id q).0.inner.in_flight ≡ none
unfolding ack locked ack_inner
in_flight-ack id q h v = ground (arith, get-remove_self id q.inner.in_flight v.distinct)

poisoned-block : (ev : Evaluation) (q : EvalQueue) → (block ev q).0.poisoned ≡ q.poisoned
unfolding block locked
poisoned-block ev q = ground arith

module _ (lib : Matchers) (fl : F64) (clock : ℕ → ℕ) (shutdown : Bool) (ev : Evaluation) where
  acking-Acked :
      (fuel : ℕ) (s : RpcEndpoint)
      → s.eval_queue.poisoned ≡ false
      → Inv s.eval_queue.inner
      → Acked ev s (turn lib fl (suc (suc fuel)) clock shutdown (acking ev) s)
  unfolding turn worker_step
  acking-Acked fuel s h v = record {
    idle = refl;
    raft = refl;
    delivered = in_flight-ack ev.id s.eval_queue h v;
  }

  parking-Acked :
      (fuel : ℕ) (s : RpcEndpoint)
      → s.eval_queue.poisoned ≡ false
      → Inv s.eval_queue.inner
      → Acked ev s (turn lib fl (suc (suc (suc fuel))) clock shutdown (parking ev) s)
  unfolding turn worker_step
  parking-Acked fuel s h v =
      let a =
        acking-Acked fuel (after_queue (block ev) s) (poisoned-block ev s.eval_queue ∙ h)
          (block-Inv s.eval_queue v ev) in
      record { idle = a.idle; raft = a.raft; delivered = a.delivered }

  committed-Acked :
      (plan : Plan) (s : RpcEndpoint)
      → s.eval_queue.poisoned ≡ false
      → Inv s.eval_queue.inner
      → Acked ev s (turn lib fl 4 clock shutdown (committed ev plan) s)
  unfolding turn worker_step
  committed-Acked plan s h v =
      elim (Bool-cases (is_none plan.allocs && ltb_ℤ (pos 0) (desired_count ev (state s.raft)))) [
        | inl e ↦ rw (e, turn, worker_step) (parking-Acked 0 s h v)
        | inr e ↦ rw (e, turn, worker_step) (acking-Acked 1 s h v)
      ]

  -- On a leader whose endpoint is sound and whose queue is not poisoned, the worker that holds an
  -- evaluation is back at the head of its loop in fewer than six steps, if nothing comes between
  -- them: the log has grown by the whole plan, one entry for an allocation, in order, and the
  -- evaluation is not in flight.
  pub turn-commits :
      (s : RpcEndpoint)
      → s.eval_queue.poisoned ≡ false
      → s.raft.role ≡ leader
      → Sound s
      → let r = turn lib fl 6 clock shutdown (holding ev) s in
        (r.0 ≡ polling)
        × (r.1.raft.log
            ≡ s.raft.log
              ++ map (λ a. upsert_alloc a) (process_eval lib fl ev (state s.raft)).allocs)
        × (get ev.id r.1.eval_queue.inner.in_flight ≡ none)
  unfolding turn worker_step state
  turn-commits s h l w =
      by_result (commit_allocs plan.allocs s.raft).1
        (commit_allocs-Committed plan.allocs s (plan-Valid lib fl ev s.raft.fsm.state w.valid) l w)
    where
      plan : Plan
      plan = process_eval lib fl ev s.raft.fsm.state

      after : RpcEndpoint
      after = record s { raft = (commit_allocs plan.allocs s.raft).0 }

      by_result :
          (r : Result (Unit {0}))
          → Committed plan.allocs s ((commit_allocs plan.allocs s.raft).0, r)
          → let t = turn lib fl 4 clock shutdown (settled ev plan r) after in
            (t.0 ≡ polling)
            × (t.1.raft.log ≡ s.raft.log ++ map (λ a. upsert_alloc a) plan.allocs)
            × (get ev.id t.1.eval_queue.inner.in_flight ≡ none)
      by_result (err x) c = absurd (ground (arith, c.returned))
      by_result (ok u) c =
          let a = committed-Acked plan after h w.queue in
          (a.idle, ap (λ n. n.log) a.raft ∙ c.logged, a.delivered)
