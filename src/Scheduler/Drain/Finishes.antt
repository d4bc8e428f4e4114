-- ===== src/Scheduler/Drain/Finishes.antt =====
-- drain_queue of scheduler.rs to its end.
use nomad_rs.Base.{
  ℕ, zero, suc, ◌+◌, ◌≤◌, ◌<◌, false, ◌≡◌, refl, sym, subst, String, Option, none, some, List, [],
  length, arith,
}
use nomad_rs.Base.HashMap.{HashMap, insert, remove}
use nomad_rs.Constraint.{Matchers}
use nomad_rs.Error.{Result, ok, err}
use nomad_rs.Eval.{Evaluation}
use nomad_rs.Fsm.{Fsm}
use nomad_rs.EvalQueue.{
  EvalQueue, Inner, PendingEval, pop, deliver, locked, dequeue, dequeue_inner, block, block_inner,
  ack, ack_inner,
}
use nomad_rs.EvalQueue.Heap.{Pops, empty, pop-Pops, length-pop}
use nomad_rs.EvalQueue.Order.{locked_open}
use nomad_rs.State.Valid.{IsValid}
use nomad_rs.Scheduler.{Plan}
use nomad_rs.Scheduler.Float.{F64}
use nomad_rs.Scheduler.Drain.{
  Drained, process_and_apply, conclude, settle, turn, drain_from, drain_queue,
}
use nomad_rs.Scheduler.Drain.Accepts.{process_and_apply-ok}

-- What a `dequeue` of a queue that is not poisoned returns.
data Dequeued (now : ℕ) (q : EvalQueue) : EvalQueue × Result (Option Evaluation) → Type 0 where
  nothing : q.inner.heap ≡ [] → Dequeued now q (q, ok none)
  taken :
      (pe : PendingEval) (rest : List PendingEval)
      → length q.inner.heap ≡ length rest + 1
      → Dequeued now q (
        record q {
          inner = record q.inner {
            heap = rest;
            in_flight = insert pe.eval.id (deliver now pe) q.inner.in_flight;
          };
        },
        ok (some pe.eval),
      )

dequeue-Dequeued : (now : ℕ) (q : EvalQueue) → q.poisoned ≡ false → Dequeued now q (dequeue now q)
unfolding dequeue dequeue_inner
dequeue-Dequeued now q h =
    subst (Dequeued now q) (sym (locked_open (dequeue_inner now) q h))
      (by_pop (pop q.inner.heap) refl (pop-Pops q.inner.heap))
  where
    returned : Option (PendingEval × List PendingEval) → Inner × Result (Option Evaluation)
    returned r = elim r [
      | none ↦ (q.inner, ok none)
      | some (pe, rest) ↦ (
        record q.inner {
          heap = rest;
          in_flight = insert pe.eval.id (deliver now pe) q.inner.in_flight;
        },
        ok (some pe.eval),
      )
    ]

    by_pop :
        (r : Option (PendingEval × List PendingEval))
        → pop q.inner.heap ≡ r
        → Pops q.inner.heap r
        → Dequeued now q (record q { inner = (returned r).0 }, (returned r).1)
    by_pop none e (empty is_nil) = nothing is_nil
    by_pop (some (pe, rest)) e p = taken pe rest (length-pop q.inner.heap rest pe e)

-- What the end of the loop's body leaves of a queue that is not poisoned.
record Concluded (ev : Evaluation) (q : EvalQueue) (r : EvalQueue × Result (Unit {0}))
    : Type 0 where
  returned : r.1 ≡ ok tt
  heap : r.0.inner.heap ≡ q.inner.heap
  in_flight : r.0.inner.in_flight ≡ remove ev.id q.inner.in_flight
  sound : r.0.poisoned ≡ false

conclude-Concluded :
    (lib : Matchers) (fl : F64) (ev : Evaluation) (plan : Plan) (f : Fsm) (q : EvalQueue)
    → q.poisoned ≡ false
    → Concluded ev q (conclude lib fl ev plan f q)
unfolding conclude block ack locked block_inner ack_inner
conclude-Concluded lib fl ev plan f q h = record {
  returned = ground arith;
  heap = ground arith;
  in_flight = ground arith;
  sound = ground arith;
}

-- The drain has ended without an error: the heap is empty, `n` counts the allocations, the store
-- is valid, and the in-flight set has the property `P`.
pub record Emptied (P : HashMap PendingEval → Type 0) (from : ℕ) (d : Drained) : Type 0 where
  pub count : (n : ℕ) × (d.result ≡ ok n) × (from ≤ n)
  pub heap : d.queue.inner.heap ≡ []
  pub in_flight : P d.queue.inner.in_flight
  pub valid : IsValid d.fsm.state

pub data Finished (P : HashMap PendingEval → Type 0) (from : ℕ) : Option Drained → Type 0 where
  finished : (d : Drained) → Emptied P from d → Finished P from (some d)

module _ (P : HashMap PendingEval → Type 0) where
  Finished-more : (m n : ℕ) (r : Option Drained) → m ≤ n → Finished P n r → Finished P m r
  Finished-more m n none l x = elim x [ ]
  Finished-more m n (some _) l (finished d e) =
      let (k, is_k, above) = e.count in
      finished d (record {
        count = (k, is_k, omega (arith, l, above));
        heap = e.heap;
        in_flight = e.in_flight;
        valid = e.valid;
      })

  module _ (lib : Matchers) (fl : F64)
      (handled : (id : String) (pe : PendingEval) (m : HashMap PendingEval)
        → P m
        → P (remove id (insert id pe m))) where
    -- The rest of the loop ends on every shorter heap.
    abbrev Ends : ℕ → (ℕ → EvalQueue → Fsm → Option Drained) → Type 0
    Ends size loop =
        (total : ℕ) (q : EvalQueue) (f : Fsm)
        → length q.inner.heap < size
        → q.poisoned ≡ false
        → P q.inner.in_flight
        → IsValid f.state
        → Finished P total (loop total q f)

    settle-Finished :
        (size : ℕ) (loop : ℕ → EvalQueue → Fsm → Option Drained) (total : ℕ) (ev : Evaluation)
        (q : EvalQueue) (r : Fsm × Result Plan) (plan : Plan)
        → Ends size loop
        → length q.inner.heap < size
        → q.poisoned ≡ false
        → P (remove ev.id q.inner.in_flight)
        → r.1 ≡ ok plan
        → IsValid r.0.state
        → Finished P total (settle lib fl loop total ev q r)
    unfolding settle
    settle-Finished size loop total ev q (f, err x) plan ends l s p e v = absurd (ground arith)
    settle-Finished size loop total ev q (f, ok made) plan ends l s p e v =
        let c = conclude-Concluded lib fl ev made f q s in
        rw (c.returned, settle)
          (Finished-more total (total + length made.allocs) _ (omega arith)
            (ends _ _ f (rw (c.heap) l) c.sound (rw (c.in_flight) p) v))

    turn-Finished :
        (size : ℕ) (loop : ℕ → EvalQueue → Fsm → Option Drained) (total now : ℕ) (f : Fsm)
        (q : EvalQueue) (r : EvalQueue × Result (Option Evaluation))
        → Ends size loop
        → length q.inner.heap < size + 1
        → q.poisoned ≡ false
        → P q.inner.in_flight
        → IsValid f.state
        → Dequeued now q r
        → Finished P total (turn lib fl loop total f r)
    unfolding turn
    turn-Finished size loop total now f q r ends l s p v (nothing e) =
        finished _
          (record { count = (total, refl, omega arith); heap = e; in_flight = p; valid = v })
    turn-Finished size loop total now f q r ends l s p v (taken pe rest e) =
        let done = process_and_apply-ok lib fl pe.eval f v in
        settle-Finished size loop total pe.eval _ (process_and_apply lib fl pe.eval f) _ ends
          (omega (arith, l, e)) s (handled pe.eval.id (deliver now pe) q.inner.in_flight p) done.0
          done.2

    drain_from-Finished : (fuel : ℕ) (clock : ℕ → ℕ) → Ends fuel (drain_from lib fl fuel clock)
    unfolding drain_from
    drain_from-Finished zero clock = λ total q f l s p v. absurd (omega (arith, l))
    drain_from-Finished (suc fuel) clock = λ total q f l s p v.
        turn-Finished fuel (drain_from lib fl fuel clock) total (clock fuel) f q _
          (drain_from-Finished fuel clock) (omega (arith, l)) s p v
          (dequeue-Dequeued (clock fuel) q s)

remove-insert :
    {V : Type 0} (k : String) (v : V) (m : HashMap V) → m ≡ [] → remove k (insert k v m) ≡ []
unfolding remove insert
remove-insert k v m e = rw e (ground arith)

-- With fuel for one turn more than there are pending evaluations, a drain of a queue that is not
-- poisoned and has nothing in flight, over a valid store, returns Ok: the heap is empty then,
-- nothing is in flight, and the store is valid.
pub drain_queue-Finished :
    (lib : Matchers) (fl : F64) (fuel : ℕ) (clock : ℕ → ℕ) (q : EvalQueue) (f : Fsm)
    → length q.inner.heap < fuel
    → q.poisoned ≡ false
    → q.inner.in_flight ≡ []
    → IsValid f.state
    → Finished (λ m. m ≡ []) 0 (drain_queue lib fl fuel clock q f)
unfolding drain_queue
drain_queue-Finished lib fl fuel clock q f l s e v =
    drain_from-Finished (λ m. m ≡ []) lib fl (λ id pe m h. remove-insert id pe m h) fuel clock 0 q f
      l s e v
