-- ===== src/EvalQueue/Order.antt =====
-- eval_queue.rs: the heap as a list in delivery order.
use mathlib.Core.List.{Mem, Perm, mem-cons_self, mem-cons, not-mem-nil}
use mathlib.Core.List.Perm
use mathlib.Core.Logic.Or
use mathlib.Core.HLevel.{hedberg}
use nomad_rs.Base.{
  String_discrete, ℕ, ◌+◌, ◌<◌, ◌≡◌, refl, sym, subst, List, [], ◌∷◌, Option, none, some, false,
  All, All-map, arith, if◌then◌else◌, Bool-cases, inl, inr,
}
use nomad_rs.Base.Int.{◌≤ℤ◌, ltb_ℤ}
use nomad_rs.Eval.{Evaluation}
use nomad_rs.Base.HashMap.{insert}
use nomad_rs.Error.{Result, ok}
use nomad_rs.EvalQueue.{
  EvalQueue, Inner, PendingEval, pop, push_pending, u64_mod, locked, enqueue, enqueue_inner,
  dequeue, dequeue_inner, deliver,
}
use nomad_rs.EvalQueue.Heap.{Pops, empty, greatest, pop-Pops, Outranks}

-- `a` is delivered before `b`.
abbrev pub Before : PendingEval → PendingEval → Type 0
Before a b =
    (b.eval.priority ≤ℤ a.eval.priority) × (a.eval.priority ≤ℤ b.eval.priority → a.seq < b.seq)

abbrev pub Sorted : List PendingEval → Type 0
Sorted [] = Unit
Sorted (a ∷ rest) = All (Before a) rest × Sorted rest

-- The heap holds the entries of the ordered list, all of them numbered below `next_seq`.
pub record Represents (i : Inner) (xs : List PendingEval) : Type 0 where
  pub same : Perm i.heap xs
  pub sorted : Sorted xs
  pub fresh : All (λ p. p.seq < i.next_seq) xs

-- A new entry goes behind every entry of at least its priority.
pub place : PendingEval → List PendingEval → List PendingEval
place p [] = p ∷ []
place p (x ∷ xs) = if ltb_ℤ x.eval.priority p.eval.priority then p ∷ x ∷ xs else x ∷ place p xs

place-perm : (p : PendingEval) (xs : List PendingEval) → Perm (p ∷ xs) (place p xs)
unfolding place
place-perm p [] = Perm.refl (p ∷ [])
place-perm p (x ∷ xs) = elim (Bool-cases (ltb_ℤ x.eval.priority p.eval.priority)) [
  | inl e ↦ rw e (Perm.refl (p ∷ x ∷ xs))
  | inr e ↦ rw e (Perm.trans (Perm.swap _ _ _) (Perm.cons x (place-perm p xs)))
]

place-All {ℓ} :
    (P : PendingEval → Type ℓ) (p : PendingEval) (xs : List PendingEval)
    → P p
    → All P xs
    → All P (place p xs)
unfolding place
place-All P p [] h k = (h, tt)
place-All P p (x ∷ xs) h k = elim (Bool-cases (ltb_ℤ x.eval.priority p.eval.priority)) [
  | inl e ↦ rw e (h, k)
  | inr e ↦ rw e (k.0, place-All P p xs h k.1)
]

place-Sorted :
    (p : PendingEval) (xs : List PendingEval)
    → All (λ x. x.seq < p.seq) xs
    → Sorted xs
    → Sorted (place p xs)
unfolding place
place-Sorted p [] n s = (tt, tt)
place-Sorted p (x ∷ xs) n s = elim (Bool-cases (ltb_ℤ x.eval.priority p.eval.priority)) [
  | inl e ↦
      let lower : Before p x = (ground arith, λ h. absurd (ground arith)) in
      rw e ((lower, All-map _ _ xs (λ y h. (ground arith, λ k. absurd (ground arith))) s.0), s)
  | inr e ↦
      let first : Before x p = (ground arith, λ h. n.0) in
      rw e (place-All (Before x) p xs first s.0, place-Sorted p xs n.1 s.1)
]

-- A push on the heap inserts the entry at its place: behind all that came before it with at
-- least its priority, and ahead of every lower priority.
pub push-Represents :
    (e : Evaluation) (n : ℕ) (i : Inner) (xs : List PendingEval)
    → i.next_seq + 1 < u64_mod
    → Represents i xs
    → Represents
        (push_pending e n i)
        (place (record { seq = i.next_seq; eval = e; dequeues = n; dequeued_at = none }) xs)
unfolding push_pending
push-Represents e n i xs room r = record {
  same = Perm.trans (Perm.cons _ r.same) (place-perm _ xs);
  sorted = place-Sorted _ xs r.fresh r.sorted;
  fresh = place-All _ _ xs (omega arith) (All-map _ _ xs (λ x h. omega arith) r.fresh);
}

all_mem {ℓ} :
    (P : PendingEval → Type ℓ) (C : Type 0) (a : PendingEval) (xs : List PendingEval)
    → IsProp C
    → All P xs
    → Mem a xs
    → (P a → C)
    → C
all_mem P C a [] c h m f = absurd (not-mem-nil m)
all_mem P C a (x ∷ xs) c h m f =
    Or.elim c (mem-cons.0 m) (λ e. f (subst P (sym e) h.0)) (λ k. all_mem P C a xs c h.1 k f)

PendingEval-set : IsSet PendingEval
PendingEval-set = hlevel (hedberg String_discrete)

-- The greatest entry of the heap is the first of the ordered list.
greatest-head :
    (m x : PendingEval) (rest xs : List PendingEval)
    → Perm (m ∷ rest) (x ∷ xs)
    → All (Outranks m) rest
    → All (Before x) xs
    → m ≡ x
greatest-head m x rest xs p top first =
    Or.elim (PendingEval-set m x) (mem-cons.0 ((Perm.mem_iff p).0 mem-cons_self)) (λ e. e)
      (λ later.
        Or.elim (PendingEval-set m x) (mem-cons.0 ((Perm.mem_iff p).1 mem-cons_self)) (λ e. sym e)
          (λ there. all_mem (Before x) (m ≡ x) m xs (PendingEval-set m x) first later λ b.
            all_mem (Outranks m) (m ≡ x) x rest (PendingEval-set m x) top there
              λ o. absurd (omega (arith, o.1 b.0, b.1 o.0))))

-- The list that is left when the first entry is taken.
pub data PopsHead (i : Inner)
    : List PendingEval → Option (PendingEval × List PendingEval) → Type 0 where
  none_left : PopsHead i [] none
  head :
      (x : PendingEval) (xs rest : List PendingEval)
      → Represents (record i { heap = rest }) xs
      → PopsHead i (x ∷ xs) (some (x, rest))

pops_head :
    (i : Inner) (xs : List PendingEval) (r : Option (PendingEval × List PendingEval))
    → Represents i xs
    → Pops i.heap r
    → PopsHead i xs r
pops_head i [] none r p = none_left
pops_head i (x ∷ xs) none r (empty e) =
    absurd (not-mem-nil (subst (Mem x) e ((Perm.mem_iff r.same).1 mem-cons_self)))
pops_head i [] (some _) r (greatest m rest p top) =
    absurd (not-mem-nil ((Perm.mem_iff (Perm.trans (Perm.symm p) r.same)).0 mem-cons_self))
pops_head i (x ∷ xs) (some _) r (greatest m rest p top) =
    let q : Perm (m ∷ rest) (x ∷ xs) = Perm.trans (Perm.symm p) r.same in
    let e : m ≡ x = greatest-head m x rest xs q top r.sorted.0 in
    subst (λ a. PopsHead i (x ∷ xs) (some (a, rest))) (sym e)
      (head x xs rest (record {
        same = Perm.cons_inv (subst (λ a. Perm (a ∷ rest) (x ∷ xs)) e q);
        sorted = r.sorted.1;
        fresh = r.fresh.1;
      }))

-- A pop takes the first entry of the ordered list and leaves its tail; it fails exactly when the
-- list is empty.
pub pop-Represents :
    (i : Inner) (xs : List PendingEval) → Represents i xs → PopsHead i xs (pop i.heap)
pop-Represents i xs r = pops_head i xs (pop i.heap) r (pop-Pops i.heap)

pub locked_open {ℓ} :
    {A : Type ℓ} (body : Inner → Inner × Result A) (q : EvalQueue)
    → q.poisoned ≡ false
    → locked body q ≡ (record q { inner = (body q.inner).0 }, (body q.inner).1)
unfolding locked
locked_open body q h = ground arith

-- What `dequeue` returns on the ordered list `xs`: its head goes in flight.
pub data Serves (now : ℕ) (q : EvalQueue)
    : List PendingEval → EvalQueue × Result (Option Evaluation) → Type 0 where
  idle : Serves now q [] (q, ok none)
  serves :
      (x : PendingEval) (xs rest : List PendingEval)
      → Represents
          (record q.inner {
            heap = rest;
            in_flight = insert x.eval.id (deliver now x) q.inner.in_flight;
          })
          xs
      → Serves now q (x ∷ xs) (
        record q {
          inner = record q.inner {
            heap = rest;
            in_flight = insert x.eval.id (deliver now x) q.inner.in_flight;
          };
        },
        ok (some x.eval),
      )

-- On a queue that is not poisoned and whose heap stands for an ordered list, `dequeue` returns
-- Ok: the first evaluation of the list, which goes in flight under its id while the heap stands
-- for the tail, or None and no change if the list is empty.
pub dequeue-Serves :
    (now : ℕ) (q : EvalQueue) (xs : List PendingEval)
    → q.poisoned ≡ false
    → Represents q.inner xs
    → Serves now q xs (dequeue now q)
unfolding dequeue dequeue_inner
dequeue-Serves now q xs h r =
    subst (Serves now q xs) (sym (locked_open (dequeue_inner now) q h))
      (by_pop xs (pop q.inner.heap) (pop-Represents q.inner xs r))
  where
    returned : Option (PendingEval × List PendingEval) → Inner × Result (Option Evaluation)
    returned o = elim o [
      | none ↦ (q.inner, ok none)
      | some (pe, rest) ↦ (
        record q.inner {
          heap = rest;
          in_flight = insert pe.eval.id (deliver now pe) q.inner.in_flight;
        },
        ok (some pe.eval),
      )
    ]

    by_pop :
        (ys : List PendingEval) (o : Option (PendingEval × List PendingEval))
        → PopsHead q.inner ys o
        → Serves now q ys (record q { inner = (returned o).0 }, (returned o).1)
    by_pop [] none none_left = idle
    by_pop (_ ∷ _) (some _) (head x ys rest p) =
        serves x ys rest (record { same = p.same; sorted = p.sorted; fresh = p.fresh })
    by_pop [] (some _) p = elim p [ ]
    by_pop (x ∷ ys) none p = elim p [ ]

-- On a queue that is not poisoned and whose heap stands for an ordered list, with a sequence
-- number left, `enqueue` returns Ok and inserts the evaluation with a delivery count of 0 behind
-- all entries of at least its priority and ahead of all of a lower one.
pub enqueue-Represents :
    (e : Evaluation) (q : EvalQueue) (xs : List PendingEval)
    → q.poisoned ≡ false
    → q.inner.next_seq + 1 < u64_mod
    → Represents q.inner xs
    → ((enqueue e q).1 ≡ ok tt)
      × Represents
          (enqueue e q).0.inner
          (place (record { seq = q.inner.next_seq; eval = e; dequeues = 0; dequeued_at = none }) xs)
unfolding enqueue enqueue_inner
enqueue-Represents e q xs h room r =
    rw (locked_open (enqueue_inner e) q h) (refl, push-Represents e 0 q.inner xs room r)
