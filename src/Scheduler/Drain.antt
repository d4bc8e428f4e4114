-- ===== src/Scheduler/Drain.antt =====
-- The rest of scheduler.rs: a plan is committed to the state machine, and the queue is drained.
pub mod Accepts
pub mod Finishes
use nomad_rs.Base.{
  ℕ, zero, suc, ◌+◌, Bool, true, false, ◌&&◌, String, Option, none, some, List, [], ◌∷◌, length,
}
use nomad_rs.Base.Int.{ℤ, pos, ltb_ℤ}
use nomad_rs.Constraint.{Matchers}
use nomad_rs.Error.{Error, Result, ok, err}
use nomad_rs.Alloc.{Allocation}
use nomad_rs.Eval.{Evaluation}
use nomad_rs.Fsm.{Fsm, Command, apply, upsert_alloc}
use nomad_rs.EvalQueue.{EvalQueue, dequeue, block, ack, nack}
use nomad_rs.Scheduler.{Plan, process_eval, desired_count}
use nomad_rs.Scheduler.Float.{F64}

-- The loop of `apply_plan`: `?` returns the first error.
unfoldable pub apply_allocs : List Allocation → Fsm → Fsm × Result (Unit {0})
apply_allocs [] f = (f, ok tt)
apply_allocs (a ∷ rest) f =
    let r = apply (upsert_alloc a) f in
    elim r.1 [ ok _ ↦ apply_allocs rest r.0 | err e ↦ (r.0, err e) ]

unfoldable pub apply_plan : Plan → Fsm → Fsm × Result (Unit {0})
apply_plan p f = apply_allocs p.allocs f

abbrev is_none {ℓ} : {A : Type ℓ} → List A → Bool
is_none [] = true
is_none (x ∷ xs) = false

-- The queue, the state machine and the result that `drain_queue` leaves.
pub record Drained : Type 0 where
  pub queue : EvalQueue
  pub fsm : Fsm
  pub result : Result ℕ

module _ (lib : Matchers) (fl : F64) where
  unfoldable pub process_and_apply : Evaluation → Fsm → Fsm × Result Plan
  process_and_apply ev f =
      let plan = process_eval lib fl ev f.state in
      let r = apply_plan plan f in elim r.1 [ ok _ ↦ (r.0, ok plan) | err e ↦ (r.0, err e) ]

  -- What the loop does with an evaluation whose plan was applied: an evaluation that wanted
  -- instances and got none is blocked; then it is acknowledged.
  unfoldable pub conclude : Evaluation → Plan → Fsm → EvalQueue → EvalQueue × Result (Unit {0})
  conclude ev plan f q =
      let parked : EvalQueue × Result (Unit {0}) =
        elim (is_none plan.allocs && ltb_ℤ (pos 0) (desired_count ev f.state)) [
          | true ↦ block ev q
          | false ↦ (q, ok tt)
        ] in
      elim parked.1 [ ok _ ↦ ack ev.id parked.0 | err e ↦ (parked.0, err e) ]

  -- The loop's body once the plan was applied or refused; `next` is the rest of the loop.
  unfoldable pub settle :
      (ℕ → EvalQueue → Fsm → Option Drained)
      → ℕ
      → Evaluation
      → EvalQueue
      → Fsm × Result Plan
      → Option Drained
  settle next total ev q (f, err e) =
      let n = nack ev.id q in
      elim n.1 [
        | ok _ ↦ some (record { queue = n.0; fsm = f; result = err e })
        | err x ↦ some (record { queue = n.0; fsm = f; result = err x })
      ]
  settle next total ev q (f, ok plan) =
      let c = conclude ev plan f q in
      elim c.1 [
        | ok _ ↦ next (total + length plan.allocs) c.0 f
        | err e ↦ some (record { queue = c.0; fsm = f; result = err e })
      ]

  -- The loop's body on what `dequeue` returned.
  unfoldable pub turn :
      (ℕ → EvalQueue → Fsm → Option Drained)
      → ℕ
      → Fsm
      → EvalQueue × Result (Option Evaluation)
      → Option Drained
  turn next total f (q, err e) = some (record { queue = q; fsm = f; result = err e })
  turn next total f (q, ok none) = some (record { queue = q; fsm = f; result = ok total })
  turn next total f (q, ok (some ev)) = settle next total ev q (process_and_apply ev f)

  -- The loop on fuel, `none` when it runs out; `clock` gives the time of a `dequeue`.
  unfoldable pub drain_from : ℕ → (ℕ → ℕ) → ℕ → EvalQueue → Fsm → Option Drained
  drain_from zero clock total q f = none
  drain_from (suc fuel) clock total q f =
      turn (drain_from fuel clock) total f (dequeue (clock fuel) q)

  unfoldable pub drain_queue : ℕ → (ℕ → ℕ) → EvalQueue → Fsm → Option Drained
  drain_queue fuel clock q f = drain_from fuel clock 0 q f
