-- ===== src/EvalQueue/Held.antt =====
-- eval_queue.rs: where an evaluation is, through the body of each method, and how often it was
-- handed out.
use nomad_rs.Base.{
  ℕ, ◌+◌, ◌≤◌, String, ◌≡◌, ◌≢◌, refl, sym, ap, ◌∙◌, subst, Option, none, some, List, [], ◌∷◌, Any,
  arith, ◌⊎◌, inl, inr, str_eq, str_eq_refl,
}
use nomad_rs.Base.HashMap.{get, insert, remove, get-insert_self, get-insert_ne, get-remove_ne}
use nomad_rs.Error.{Result, ok}
use nomad_rs.Eval.{Evaluation}
use nomad_rs.EvalQueue.{Inner, PendingEval, pop, push_pending, deliver, dequeue_inner}
use nomad_rs.EvalQueue.Heap.{pop-Any, AnyPopped, pop-All, AllPopped}
use nomad_rs.EvalQueue.Delivery.{Inv, Waiting, dequeues}
use nomad_rs.EvalQueue.HandedOut.{
  named, returned, hands, weight, heap_weight, flying_weight, blocked_weight, heap_weight-pop,
  flying_weight-remove,
}

-- The entry holds the evaluation, and was handed out so many times.
abbrev pub Holds : Evaluation → ℕ → PendingEval → Type 0
Holds e n p = (p.eval ≡ e) × (p.dequeues ≡ n)

-- The evaluation is in flight under its id, for the n-th time.
pub record InFlight (e : Evaluation) (n : ℕ) (i : Inner) : Type 0 where
  pub entry : PendingEval
  pub there : get e.id i.in_flight ≡ some entry
  pub holds : Holds e n entry

-- The evaluation is pending or in flight and was handed out n times, or is blocked and never was.
pub data Kept (e : Evaluation) (n : ℕ) (i : Inner) : Type 0 where
  pending : Any (Holds e n) i.heap → Kept e n i
  in_flight : InFlight e n i → Kept e n i
  blocked : n ≡ 0 → Any (λ x. x ≡ e) i.blocked → Kept e n i

-- The number of entries with the id, wherever they are.
abbrev pub occurrences : String → Inner → ℕ
occurrences = weight (λ d. 1)

named_self : (e x : Evaluation) → x ≡ e → named e.id x ≡ 1
named_self e x same = subst (λ y. named e.id y ≡ 1) (sym same) (rw (str_eq_refl e.id) refl)

heap-occurs :
    (e : Evaluation) (n : ℕ) (h : List PendingEval)
    → Any (Holds e n) h
    → 1 ≤ heap_weight (λ d. 1) e.id h
unfolding heap_weight
heap-occurs e n [] k = elim k [ ]
heap-occurs e n (p ∷ h) (inl k) = omega (arith, named_self e p.eval k.0)
heap-occurs e n (p ∷ h) (inr k) = omega (arith, heap-occurs e n h k)

blocked-occurs :
    (e : Evaluation) (es : List Evaluation)
    → Any (λ x. x ≡ e) es
    → 1 ≤ blocked_weight (λ d. 1) e.id es
unfolding blocked_weight
blocked-occurs e [] k = elim k [ ]
blocked-occurs e (x ∷ es) (inl k) = omega (arith, named_self e x k)
blocked-occurs e (x ∷ es) (inr k) = omega (arith, blocked-occurs e es k)

flying-occurs :
    (e : Evaluation) (n : ℕ) (i : Inner)
    → InFlight e n i
    → 1 ≤ flying_weight (λ d. 1) e.id i.in_flight
flying-occurs e n i h = omega (
  arith,
  flying_weight-remove (λ d. 1) e.id e.id h.entry i.in_flight h.there,
  named_self e h.entry.eval h.holds.0,
)

pub push_pending-Kept :
    (e : Evaluation) (n : ℕ) (x : Evaluation) (m : ℕ) (i : Inner)
    → Kept e n i
    → Kept e n (push_pending x m i)
unfolding push_pending
push_pending-Kept e n x m i (pending h) = pending (inr h)
push_pending-Kept e n x m i (in_flight h) =
    in_flight (record { entry = h.entry; there = h.there; holds = h.holds })
push_pending-Kept e n x m i (blocked z h) = blocked z h

pub push_pending-new : (e : Evaluation) (n : ℕ) (i : Inner) → Kept e n (push_pending e n i)
unfolding push_pending
push_pending-new e n i = pending (inl (refl, refl))

-- The popped entry is another evaluation's.
module _ (e : Evaluation) (n : ℕ) (now : ℕ) (i : Inner) (pe : PendingEval)
    (rest : List PendingEval) where
  delivered : Inner
  delivered = record i { heap = rest; in_flight = insert pe.eval.id (deliver now pe) i.in_flight }

  other-named : named e.id pe.eval ≡ 0 → pe.eval.id ≢ e.id
  other-named z same = absurd (ground (arith, z, ap (λ k. str_eq k e.id) same, str_eq_refl e.id))

  taken-Kept : Holds e n pe → Waiting pe → Kept e (n + named e.id pe.eval) delivered
  unfolding delivered
  taken-Kept h w = in_flight (record {
    entry = deliver now pe;
    there =
        subst (λ j. get j (insert pe.eval.id (deliver now pe) i.in_flight) ≡ some (deliver now pe))
          (ap (λ x. x.id) h.0) (get-insert_self pe.eval.id (deliver now pe) i.in_flight);
    holds = unfold deliver in (h.0, omega (arith, h.1, w.below, named_self e pe.eval h.0));
  })

  passed-Kept :
      named e.id pe.eval ≡ 0
      → Any (Holds e n) rest ⊎ (InFlight e n i ⊎ ((n ≡ 0) × Any (λ x. x ≡ e) i.blocked))
      → Kept e (n + named e.id pe.eval) delivered
  unfolding delivered
  passed-Kept z k = subst (λ m. Kept e m delivered) (omega (arith, z)) (by_place k)
    where
      by_place :
          Any (Holds e n) rest ⊎ (InFlight e n i ⊎ ((n ≡ 0) × Any (λ x. x ≡ e) i.blocked))
          → Kept e n delivered
      by_place (inl m) = pending m
      by_place (inr (inl h)) = in_flight (record {
        entry = h.entry;
        there =
            get-insert_ne pe.eval.id e.id (deliver now pe) i.in_flight (other-named z) ∙ h.there;
        holds = h.holds;
      })
      by_place (inr (inr (y, b))) = blocked y b

-- What a pop takes from the heap goes in flight, under its id, and is counted.
pub dequeue-Kept :
    (e : Evaluation) (n now : ℕ) (i : Inner)
    → Inv i
    → occurrences e.id i ≤ 1
    → Kept e n i
    → Kept e (n + hands e.id (dequeues now) i) (dequeue_inner now i).0
unfolding dequeue_inner weight delivered
dequeue-Kept e n now i v sole h =
    by_pop (pop i.heap) refl h (pop-Any (Holds e n) i.heap) (pop-All Waiting i.heap v.waiting)
  where
    by_pop :
        (r : Option (PendingEval × List PendingEval))
        → pop i.heap ≡ r
        → Kept e n i
        → (Any (Holds e n) i.heap → AnyPopped (Holds e n) r)
        → AllPopped Waiting r
        → let x : Inner × Result (Option Evaluation) = elim r [
          | none ↦ (i, ok none)
          | some (pe, rest) ↦ (
            record i { heap = rest; in_flight = insert pe.eval.id (deliver now pe) i.in_flight },
            ok (some pe.eval),
          )
        ] in
          Kept e (n + returned e.id x.1) x.0
    by_pop none q k f w = subst (λ m. Kept e m i) (omega arith) k
    by_pop (some (pe, rest)) q (pending k) f w = elim (f k) [
      | inl m ↦ taken-Kept e n now i pe rest m w.0
      | inr m ↦
          passed-Kept e n now i pe rest
            (omega
              (arith, heap_weight-pop (λ d. 1) e.id i.heap rest pe q, heap-occurs e n rest m, sole))
            (inl m)
    ]
    by_pop (some (pe, rest)) q (in_flight k) f w =
        passed-Kept e n now i pe rest
          (omega
            (arith, heap_weight-pop (λ d. 1) e.id i.heap rest pe q, flying-occurs e n i k, sole))
          (inr (inl k))
    by_pop (some (pe, rest)) q (blocked z k) f w =
        passed-Kept e n now i pe rest
          (omega (
            arith,
            heap_weight-pop (λ d. 1) e.id i.heap rest pe q,
            blocked-occurs e i.blocked k,
            sole,
          ))
          (inr (inr (z, k)))

pub remove-Kept :
    (e : Evaluation) (n : ℕ) (j : String) (i : Inner)
    → j ≢ e.id
    → Kept e n i
    → Kept e n (record i { in_flight = remove j i.in_flight })
remove-Kept e n j i k (pending h) = pending h
remove-Kept e n j i k (in_flight h) = in_flight (record {
  entry = h.entry;
  there = get-remove_ne j e.id i.in_flight k ∙ h.there;
  holds = h.holds;
})
remove-Kept e n j i k (blocked z h) = blocked z h
