-- ===== src/EvalQueue/HandedOut.antt =====
-- eval_queue.rs: how often the evaluation with an id is handed out, over any calls.
use nomad_rs.Base.{
  ℕ, ◌+◌, ◌-◌, ◌*◌, ◌%◌, ◌≤◌, ◌<◌, String, ◌≡◌, refl, Option, none, some, List, [], ◌∷◌, ◌++◌,
  arith, inl, inr, Bool-cases, Option-cases, String_discrete, ltb, str_eq, if◌then◌else◌,
}
use nomad_rs.Base.HashMap.{HashMap, get, insert, remove}
use nomad_rs.Error.{Result, ok, err}
use nomad_rs.Eval.{Evaluation}
use nomad_rs.EvalQueue.{
  Inner, PendingEval, pop, new, max_dequeue, push_pending, deliver, give_back, reap, push_all,
  enqueue_inner, dequeue_inner, ack_inner, nack_inner, reap_inner, block_inner, unblock_inner,
}
use nomad_rs.EvalQueue.Heap.{total, total-pop, pop-All, AllPopped}
use nomad_rs.EvalQueue.Delivery.{
  Inv, Waiting, redeliver, reap-give_back, Call, enqueues, blocks, dequeues, acks, nacks, reaps,
  unblocks, step, step-Inv, steps, new-Inv,
}

-- 1 if the evaluation has the id.
abbrev pub named : String → Evaluation → ℕ
named id e = if str_eq e.id id then 1 else 0

-- 1 if a `dequeue` returned an evaluation with the id.
abbrev pub returned : String → Result (Option Evaluation) → ℕ
returned id (ok (some e)) = named id e
returned id (ok none) = 0
returned id (err x) = 0

-- 1 if the call, made in the state, hands out an evaluation with the id.
abbrev pub hands : String → Call → Inner → ℕ
hands id (enqueues e) i = 0
hands id (blocks e) i = 0
hands id (dequeues now) i = returned id (dequeue_inner now i).1
hands id (acks j) i = 0
hands id (nacks j) i = 0
hands id (reaps now timeout) i = 0
hands id unblocks i = 0

-- How often the calls, made from the state on, hand out an evaluation with the id.
unfoldable pub handed_out : String → List Call → Inner → ℕ
handed_out id [] i = 0
handed_out id (c ∷ cs) i = hands id c i + handed_out id cs (step c i)

-- 1 if the call is an `enqueue` or a `block` of an evaluation with the id.
abbrev pub adds : String → Call → ℕ
adds id (enqueues e) = named id e
adds id (blocks e) = named id e
adds id (dequeues now) = 0
adds id (acks j) = 0
adds id (nacks j) = 0
adds id (reaps now timeout) = 0
adds id unblocks = 0

-- How many of the calls are an `enqueue` or a `block` of an evaluation with the id.
unfoldable pub added : String → List Call → ℕ
added id [] = 0
added id (c ∷ cs) = adds id c + added id cs

-- A value for each entry with the id, by the number of its deliveries.
module _ (f : ℕ → ℕ) (id : String) where
  abbrev pub entry_weight : PendingEval → ℕ
  entry_weight p = named id p.eval * f p.dequeues

  unfoldable pub heap_weight : List PendingEval → ℕ
  heap_weight h = total entry_weight h

  unfoldable pub flying_weight : HashMap PendingEval → ℕ
  flying_weight [] = 0
  flying_weight ((k, p) ∷ m) = entry_weight p + flying_weight m

  unfoldable pub blocked_weight : List Evaluation → ℕ
  blocked_weight [] = 0
  blocked_weight (e ∷ es) = named id e * f 0 + blocked_weight es

  unfoldable pub weight : Inner → ℕ
  unfolding heap_weight flying_weight blocked_weight
  weight i = heap_weight i.heap + (flying_weight i.in_flight + blocked_weight i.blocked)

  pub heap_weight-pop :
      (h rest : List PendingEval) (p : PendingEval)
      → pop h ≡ some (p, rest)
      → heap_weight h ≡ entry_weight p + heap_weight rest
  unfolding heap_weight
  heap_weight-pop h rest p e = total-pop entry_weight h rest p e

  pub flying_weight-remove :
      (k : String) (p : PendingEval) (m : HashMap PendingEval)
      → get k m ≡ some p
      → flying_weight m ≡ entry_weight p + flying_weight (remove k m)
  unfolding flying_weight get remove
  flying_weight-remove k p [] e = cc
  flying_weight-remove k p ((j, q) ∷ m) e = elim (String_discrete j k) [
    | yes s ↦ ground (arith, e)
    | no n ↦ ground (arith, flying_weight-remove k p m (ground (arith, e)))
  ]

  flying_weight-remove_le :
      (k : String) (m : HashMap PendingEval) → flying_weight (remove k m) ≤ flying_weight m
  unfolding flying_weight remove
  flying_weight-remove_le k [] = omega arith
  flying_weight-remove_le k ((j, q) ∷ m) = ground (arith, flying_weight-remove_le k m)

  flying_weight-insert :
      (k : String) (p : PendingEval) (m : HashMap PendingEval)
      → flying_weight (insert k p m) ≤ entry_weight p + flying_weight m
  unfolding flying_weight insert
  flying_weight-insert k p [] = omega arith
  flying_weight-insert k p ((j, q) ∷ m) = ground (arith, flying_weight-insert k p m)

  weight-push_pending :
      (e : Evaluation) (n : ℕ) (i : Inner)
      → weight (push_pending e n i) ≡ named id e * f n + weight i
  unfolding weight push_pending
  weight-push_pending e n i = omega arith

  weight-remove_le :
      (k : String) (i : Inner) → weight (record i { in_flight = remove k i.in_flight }) ≤ weight i
  unfolding weight
  weight-remove_le k i = omega (arith, flying_weight-remove_le k i.in_flight)

  weight-redeliver :
      (p : PendingEval) (i : Inner) → weight (redeliver p i) ≤ entry_weight p + weight i
  unfolding redeliver
  weight-redeliver p i = elim (Bool-cases (ltb p.dequeues max_dequeue)) [
    | inl e ↦ rw e (omega (arith, weight-push_pending p.eval p.dequeues i))
    | inr e ↦ rw e (omega arith)
  ]

  weight-give_back : (k : String) (i : Inner) → weight (give_back k i) ≤ weight i
  unfolding give_back redeliver
  weight-give_back k i = elim (Option-cases (get k i.in_flight)) [
    | inl e ↦ rw (e, give_back) (omega arith)
    | inr (p, e) ↦ rw (e, give_back) (taken p e)
  ]
    where
      taken :
          (p : PendingEval)
          → get k i.in_flight ≡ some p
          → weight (redeliver p (record i { in_flight = remove k i.in_flight })) ≤ weight i
      taken p e =
          let left : Inner = record i { in_flight = remove k i.in_flight } in
          let a = weight-redeliver p left in
          let b = flying_weight-remove k p i.in_flight e in unfold weight in omega (arith, a, b)

  weight-reap : (ids : List String) (i : Inner) → weight (reap ids i) ≤ weight i
  weight-reap [] i = unfold reap in omega arith
  weight-reap (k ∷ ids) i =
      rw (reap-give_back k ids i)
        (omega (arith, weight-give_back k i, weight-reap ids (give_back k i)))

  weight-push_all :
      (es : List Evaluation) (i : Inner) → weight (push_all es i) ≡ blocked_weight es + weight i
  unfolding push_all blocked_weight
  weight-push_all [] i = omega arith
  weight-push_all (e ∷ es) i =
      omega (arith, weight-push_all es (push_pending e 0 i), weight-push_pending e 0 i)

  weight-unblock : (i : Inner) → weight (unblock_inner i).0 ≡ weight i
  unfolding unblock_inner
  weight-unblock i =
      let a = weight-push_all i.blocked (record i { blocked = [] }) in
      unfold weight blocked_weight in omega (arith, a)

  blocked_weight-append :
      (es : List Evaluation) (e : Evaluation)
      → blocked_weight (es ++ e ∷ []) ≡ named id e * f 0 + blocked_weight es
  unfolding blocked_weight
  blocked_weight-append [] e = omega arith
  blocked_weight-append (x ∷ es) e = omega (arith, blocked_weight-append es e)

  -- A delivery takes `g` from the value of an entry.
  module _ (g : ℕ) (falls : (d : ℕ) → d < max_dequeue → g + f (d + 1) ≤ f d) where
    entry_weight-deliver :
        (now : ℕ) (p : PendingEval)
        → Waiting p
        → g * named id p.eval + entry_weight (deliver now p) ≤ entry_weight p
    unfolding deliver
    entry_weight-deliver now p w =
        let same : (p.dequeues + 1) % 4294967296 ≡ p.dequeues + 1 = omega (arith, w.below) in
        rw same (ground (arith, falls p.dequeues w.below))

    weight-dequeue :
        (now : ℕ) (i : Inner)
        → Inv i
        → g * hands id (dequeues now) i + weight (dequeue_inner now i).0 ≤ weight i
    unfolding dequeue_inner
    weight-dequeue now i v = by_pop (pop i.heap) refl (pop-All Waiting i.heap v.waiting)
      where
        by_pop :
            (r : Option (PendingEval × List PendingEval))
            → pop i.heap ≡ r
            → AllPopped Waiting r
            → let x : Inner × Result (Option Evaluation) = elim r [
              | none ↦ (i, ok none)
              | some (pe, rest) ↦ (
                record i {
                  heap = rest;
                  in_flight = insert pe.eval.id (deliver now pe) i.in_flight;
                },
                ok (some pe.eval),
              )
            ] in
              g * returned id x.1 + weight x.0 ≤ weight i
        by_pop none e w = omega arith
        by_pop (some (pe, rest)) e w =
            let a = heap_weight-pop i.heap rest pe e in
            let b = flying_weight-insert pe.eval.id (deliver now pe) i.in_flight in
            let c = entry_weight-deliver now pe w.0 in unfold weight in omega (arith, a, b, c)

    weight-step :
        (c : Call) (i : Inner)
        → Inv i
        → g * hands id c i + weight (step c i) ≤ weight i + adds id c * f 0
    unfolding step enqueue_inner ack_inner nack_inner reap_inner block_inner
    weight-step (enqueues e) i v = omega (arith, weight-push_pending e 0 i)
    weight-step (blocks e) i v =
        let a = blocked_weight-append i.blocked e in unfold weight in omega (arith, a)
    weight-step (dequeues now) i v = omega (arith, weight-dequeue now i v)
    weight-step (acks k) i v = omega (arith, weight-remove_le k i)
    weight-step (nacks k) i v = omega (arith, weight-give_back k i)
    weight-step (reaps now timeout) i v = omega (arith, weight-reap _ i)
    weight-step unblocks i v = omega (arith, weight-unblock i)

    pub weight-steps :
        (cs : List Call) (i : Inner)
        → Inv i
        → g * handed_out id cs i + weight (steps cs i) ≤ weight i + added id cs * f 0
    unfolding steps handed_out added
    weight-steps [] i v = omega arith
    weight-steps (c ∷ cs) i v =
        grind (arith, weight-step c i v, weight-steps cs (step c i) (step-Inv c i v))

-- Over any calls on a new queue an evaluation id is handed out at most `MAX_DEQUEUE` times for each
-- `enqueue` or `block` of an evaluation with the id, whatever is given back, reaped or unblocked in
-- between.
pub handed_out-bounded :
    (id : String) (cs : List Call) → handed_out id cs new.inner ≤ max_dequeue * added id cs
unfolding weight new
handed_out-bounded id cs =
    omega (arith, weight-steps (λ d. 3 - d) id 1 (λ d h. omega arith) cs new.inner new-Inv)
