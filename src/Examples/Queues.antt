-- ===== src/Examples/Queues.antt =====
-- The queue with two evaluations, the second one more urgent.
use mathlib.Core.List.Perm
use nomad_rs.Base.{
  ℕ, ◌*◌, ◌-◌, ◌≤◌, ◌≡◌, ◌≢◌, refl, Option, none, some, List, [], ◌∷◌, false, arith, ◌⊎◌,
  String_discrete,
}
use nomad_rs.Error.{ok}
use nomad_rs.EvalQueue.{EvalQueue, PendingEval, new, enqueue, dequeue}
use nomad_rs.EvalQueue.{max_dequeue, Inner, reap_expired}
use nomad_rs.EvalQueue.Delivery.{
  Inv, Call, enqueues, blocks, dequeues, nacks, reaps, unblocks, step, steps,
}
use nomad_rs.EvalQueue.HandedOut.{handed_out, added, handed_out-bounded}
use nomad_rs.EvalQueue.Held.{Kept}
use nomad_rs.EvalQueue.Kept.{Dropped, enqueued, added-Kept}
use nomad_rs.EvalQueue.Reaped.{Reaps, reap_expired-Reaps}
use nomad_rs.EvalQueue.Order.{Represents, Serves, place, dequeue-Serves, enqueue-Represents}
use nomad_rs.Base.HashMap.{get}
use nomad_rs.Examples.{eval_1, urgent}

abbrev pub waiting_1 : PendingEval
waiting_1 = record { seq = 0; eval = eval_1; dequeues = 0; dequeued_at = none }

abbrev waiting_2 : PendingEval
waiting_2 = record { seq = 1; eval = urgent; dequeues = 0; dequeued_at = none }

abbrev pub one : EvalQueue
one = record {
  inner = record { heap = waiting_1 ∷ []; next_seq = 1; in_flight = []; blocked = [] };
  poisoned = false;
}

abbrev two : EvalQueue
two = record {
  inner = record { heap = waiting_1 ∷ waiting_2 ∷ []; next_seq = 2; in_flight = []; blocked = [] };
  poisoned = false;
}

one-Represents : Represents one.inner (waiting_1 ∷ [])
one-Represents = record { same = Perm.refl _; sorted = (tt, tt); fresh = (omega arith, tt) }

two-Represents : Represents two.inner (waiting_2 ∷ waiting_1 ∷ [])
two-Represents = record {
  same = Perm.swap _ _ _;
  sorted = (((omega arith, λ h. absurd (omega (arith, h))), tt), (tt, tt));
  fresh = (omega arith, (omega arith, tt));
}

dequeue-Serves_example : Serves 7 two (waiting_2 ∷ waiting_1 ∷ []) (dequeue 7 two)
dequeue-Serves_example = dequeue-Serves 7 two (waiting_2 ∷ waiting_1 ∷ []) refl two-Represents

enqueue-Represents_example :
    ((enqueue urgent one).1 ≡ ok tt)
    × Represents (enqueue urgent one).0.inner (place waiting_2 (waiting_1 ∷ []))
enqueue-Represents_example =
    enqueue-Represents urgent one (waiting_1 ∷ []) refl (omega arith) one-Represents

-- Given back, and reaped.
handed_out-bounded_example :
    handed_out "e1"
      (enqueues eval_1 ∷ dequeues 3 ∷ nacks "e1" ∷ dequeues 5 ∷ reaps 90 60 ∷ dequeues 95 ∷ [])
      new.inner
    ≤ max_dequeue
      * added "e1"
          (enqueues eval_1 ∷ dequeues 3 ∷ nacks "e1" ∷ dequeues 5 ∷ reaps 90 60 ∷ dequeues 95 ∷ [])
handed_out-bounded_example =
    handed_out-bounded "e1"
      (enqueues eval_1 ∷ dequeues 3 ∷ nacks "e1" ∷ dequeues 5 ∷ reaps 90 60 ∷ dequeues 95 ∷ [])

-- One evaluation, handed out at time 3.
abbrev pub delivered : Inner
delivered = record {
  heap = [];
  next_seq = 1;
  in_flight = ("e1", record waiting_1 { dequeues = 1; dequeued_at = some 3 }) ∷ [];
  blocked = [];
}

pub delivered-Inv : Inv delivered
unfolding get
delivered-Inv = record {
  waiting = tt;
  flying = (record { started = omega arith; capped = omega arith; since = (3, refl) }, tt);
  filed = (refl, tt);
  distinct = (refl, tt);
}

delivered-off : (t : ℕ) → ◌≡◌ {A = Option ℕ} (some 3) (some t) → 90 - t ≢ 60
delivered-off t e = ground (arith, e)

reap_expired-Reaps_example :
    Reaps 90 60 delivered (reap_expired 90 60 (record { inner = delivered; poisoned = false }))
reap_expired-Reaps_example = reap_expired-Reaps 90 60 delivered delivered-Inv (delivered-off, tt)

-- Handed out for the third time, and given back.
abbrev rest : List Call
rest = dequeues 3 ∷ nacks "e1" ∷ dequeues 5 ∷ reaps 90 60 ∷ dequeues 99 ∷ unblocks ∷ nacks "e1" ∷ []

ids_differ : (added eval_1.id (blocks urgent ∷ []) ≡ 0) × (added eval_1.id rest ≡ 0)
unfolding added String_discrete
ids_differ = (refl, refl)

added-Kept_example :
    let i = step (enqueues eval_1) (steps (blocks urgent ∷ []) new.inner) in
    Kept eval_1 (handed_out "e1" rest i) (steps rest i) ⊎ Dropped eval_1 0 rest i
added-Kept_example =
    added-Kept (blocks urgent ∷ []) rest (enqueues eval_1) eval_1 enqueued ids_differ.0 ids_differ.1
