-- ===== src/EvalQueue/Delivery.antt =====
-- eval_queue.rs: the delivery counts, over any calls.
use nomad_rs.Base.{
  ℕ, ◌≤◌, ◌<◌, String, ◌≡◌, refl, List, [], ◌∷◌, Option, none, some, All, arith, Option-cases, inl,
  inr, dec_lt, lt→ltb, ltb, not-ltb, if◌then◌else◌,
}
use nomad_rs.Base.HashMap.{
  get, insert, remove, Distinct, insert-Distinct, remove-Distinct, insert-All, remove-All,
}
use nomad_rs.Error.{Result, ok}
use nomad_rs.Eval.{Evaluation}
use nomad_rs.EvalQueue.{
  Inner, PendingEval, pop, new, max_dequeue, push_pending, deliver, give_back, reap, push_all,
  enqueue_inner, dequeue_inner, ack_inner, nack_inner, reap_inner, block_inner, unblock_inner,
}
use nomad_rs.EvalQueue.Heap.{pop-All, AllPopped}

-- Pending: handed out fewer times than the cap, and not handed out now.
pub record Waiting (p : PendingEval) : Type 0 where
  pub below : p.dequeues < max_dequeue
  pub idle : p.dequeued_at ≡ none

-- In flight: handed out at least once and at most as often as the cap.
pub record Flying (p : PendingEval) : Type 0 where
  pub started : 1 ≤ p.dequeues
  pub capped : p.dequeues ≤ max_dequeue
  pub since : (t : ℕ) × (p.dequeued_at ≡ some t)

pub record Inv (i : Inner) : Type 0 where
  pub waiting : All Waiting i.heap
  pub flying : All (λ e. Flying e.1) i.in_flight
  pub filed : All (λ e. e.0 ≡ e.1.eval.id) i.in_flight
  pub distinct : Distinct i.in_flight

push_pending-Inv :
    (e : Evaluation) (n : ℕ) (i : Inner) → n < max_dequeue → Inv i → Inv (push_pending e n i)
unfolding push_pending
push_pending-Inv e n i h v = record {
  waiting = (record { below = h; idle = refl }, v.waiting);
  flying = v.flying;
  filed = v.filed;
  distinct = v.distinct;
}

remove-Inv :
    (id : String) (i : Inner) → Inv i → Inv (record i { in_flight = remove id i.in_flight })
remove-Inv id i v = record {
  waiting = v.waiting;
  flying = remove-All _ id i.in_flight v.flying;
  filed = remove-All _ id i.in_flight v.filed;
  distinct = remove-Distinct id i.in_flight v.distinct;
}

-- An entry that left the in-flight set goes back on the heap, or is dropped at the cap.
unfoldable pub redeliver : PendingEval → Inner → Inner
redeliver p i = if ltb p.dequeues max_dequeue then push_pending p.eval p.dequeues i else i

redeliver-Inv : (p : PendingEval) (i : Inner) → Inv i → Inv (redeliver p i)
unfolding redeliver
redeliver-Inv p i v = elim (dec_lt p.dequeues max_dequeue) [
  | yes h ↦ rw (lt→ltb _ _ h) (push_pending-Inv p.eval p.dequeues i h v)
  | no h ↦ rw (not-ltb _ _ h) v
]

eval-deliver : (now : ℕ) (p : PendingEval) → p.eval.id ≡ (deliver now p).eval.id
unfolding deliver
eval-deliver now p = refl

deliver-Flying : (now : ℕ) (p : PendingEval) → Waiting p → Flying (deliver now p)
unfolding deliver
deliver-Flying now p w = record { started = omega arith; capped = omega arith; since = (now, refl) }

dequeue-Inv : (now : ℕ) (i : Inner) → Inv i → Inv (dequeue_inner now i).0
unfolding dequeue_inner
dequeue-Inv now i v = go (pop i.heap) (pop-All Waiting i.heap v.waiting)
  where
    after : Option (PendingEval × List PendingEval) → Inner × Result (Option Evaluation)
    after r = elim r [
      | none ↦ (i, ok none)
      | some (pe, rest) ↦ (
        record i { heap = rest; in_flight = insert pe.eval.id (deliver now pe) i.in_flight },
        ok (some pe.eval),
      )
    ]

    go : (r : Option (PendingEval × List PendingEval)) → AllPopped Waiting r → Inv (after r).0
    go none h = v
    go (some (pe, rest)) h = record {
      waiting = h.1;
      flying =
          insert-All _ pe.eval.id (deliver now pe) i.in_flight (deliver-Flying now pe h.0) v.flying;
      filed = insert-All _ pe.eval.id (deliver now pe) i.in_flight (eval-deliver now pe) v.filed;
      distinct = insert-Distinct pe.eval.id (deliver now pe) i.in_flight v.distinct;
    }

pub give_back-Inv : (id : String) (i : Inner) → Inv i → Inv (give_back id i)
unfolding give_back redeliver
give_back-Inv id i v = elim (Option-cases (get id i.in_flight)) [
  | inl e ↦ rw (e, give_back) v
  | inr (p, e) ↦ rw (e, give_back) (redeliver-Inv p _ (remove-Inv id i v))
]

-- One pass of the loop gives the id back.
pub reap-give_back :
    (id : String) (ids : List String) (i : Inner) → reap (id ∷ ids) i ≡ reap ids (give_back id i)
reap-give_back id ids i = elim (Option-cases (get id i.in_flight)) [
  | inl e ↦ unfold reap give_back in rw (e, give_back, reap)
  | inr (p, e) ↦ unfold reap give_back in rw (e, give_back, reap)
]

reap-Inv : (ids : List String) (i : Inner) → Inv i → Inv (reap ids i)
reap-Inv [] i v = unfold reap in v
reap-Inv (id ∷ ids) i v =
    rw (reap-give_back id ids i) (reap-Inv ids (give_back id i) (give_back-Inv id i v))

push_all-Inv : (es : List Evaluation) (i : Inner) → Inv i → Inv (push_all es i)
unfolding push_all
push_all-Inv [] i v = v
push_all-Inv (e ∷ es) i v =
    push_all-Inv es (push_pending e 0 i) (push_pending-Inv e 0 i (omega arith) v)

-- Any call on the queue: the caller chooses the call, the time and the arguments.
pub data Call : Type 0 where
  enqueues blocks : Evaluation → Call
  dequeues : ℕ → Call
  acks nacks : String → Call
  reaps : ℕ → ℕ → Call
  unblocks : Call

-- The inner state after a call.
unfoldable pub step : Call → Inner → Inner
unfolding ack_inner reap_inner block_inner unblock_inner nack_inner
step (enqueues e) i = (enqueue_inner e i).0
step (blocks e) i = (block_inner e i).0
step (dequeues now) i = (dequeue_inner now i).0
step (acks id) i = (ack_inner id i).0
step (nacks id) i = (nack_inner id i).0
step (reaps now timeout) i = (reap_inner now timeout i).0
step unblocks i = (unblock_inner i).0

pub step-Inv : (c : Call) (i : Inner) → Inv i → Inv (step c i)
unfolding step enqueue_inner
step-Inv (enqueues e) i v = push_pending-Inv e 0 i (omega arith) v
step-Inv (blocks e) i v = record {
  waiting = v.waiting;
  flying = v.flying;
  filed = v.filed;
  distinct = v.distinct;
}
step-Inv (dequeues now) i v = dequeue-Inv now i v
step-Inv (acks id) i v = remove-Inv id i v
step-Inv (nacks id) i v = give_back-Inv id i v
step-Inv (reaps now timeout) i v = reap-Inv _ i v
step-Inv unblocks i v =
    push_all-Inv i.blocked _
      (record { waiting = v.waiting; flying = v.flying; filed = v.filed; distinct = v.distinct })

unfoldable pub steps : List Call → Inner → Inner
steps [] i = i
steps (c ∷ cs) i = steps cs (step c i)

pub steps-Inv : (cs : List Call) (i : Inner) → Inv i → Inv (steps cs i)
unfolding steps
steps-Inv [] i v = v
steps-Inv (c ∷ cs) i v = steps-Inv cs (step c i) (step-Inv c i v)

pub new-Inv : Inv new.inner
unfolding new
new-Inv = record { waiting = tt; flying = tt; filed = tt; distinct = tt }
