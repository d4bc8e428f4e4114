-- ===== src/EvalQueue/Heap.antt =====
-- The entries of the queue and their order. `BinaryHeap` is a list, and its `pop` takes a greatest
-- entry by `cmp`.
use nomad_rs.Base.{
  ℕ, Bool, true, false, Option, none, some, List, [], ◌∷◌, ◌≡◌, refl, ap, compare, Ordering, arith,
  if◌then◌else◌, All, Any, ◌⊎◌, inl, inr, Bool-cases, ◌≤◌, ◌+◌, suc, length,
}
use nomad_rs.Base.Int.{compare_ℤ, ◌≤ℤ◌}
use mathlib.Core.List.{Perm}
use mathlib.Core.List.Perm
use nomad_rs.Eval.{Evaluation}

pub record PendingEval : Type 0 where
  pub seq : ℕ
  pub eval : Evaluation
  pub dequeues : ℕ
  pub dequeued_at : Option ℕ

-- `Ord::cmp`: by priority, and by age among equals.
unfoldable pub cmp : PendingEval → PendingEval → Ordering
cmp a b = elim (compare_ℤ a.eval.priority b.eval.priority) [
  | Ordering.eq ↦ compare b.seq a.seq
  | Ordering.lt ↦ Ordering.lt
  | Ordering.gt ↦ Ordering.gt
]

-- Whether `b` is greater than `a`.
further : PendingEval → PendingEval → Bool
unfolding cmp
further a b = elim (cmp b a) [ Ordering.gt ↦ true | _ ↦ false ]

-- The greatest of `a` and the list, and the others.
select : PendingEval → List PendingEval → PendingEval × List PendingEval
select a [] = (a, [])
select a (b ∷ h) =
    let r = select (if further a b then b else a) h in (r.0, (if further a b then a else b) ∷ r.1)

unfoldable pub pop : List PendingEval → Option (PendingEval × List PendingEval)
unfolding select further
pop [] = none
pop (a ∷ h) = some (select a h)

-- `b` has a lower priority than `a`, or the same priority and no smaller a number.
abbrev pub Outranks : PendingEval → PendingEval → Type 0
Outranks a b =
    (b.eval.priority ≤ℤ a.eval.priority) × (a.eval.priority ≤ℤ b.eval.priority → a.seq ≤ b.seq)

Outranks-refl : (a : PendingEval) → Outranks a a
Outranks-refl a = (omega arith, λ e. omega arith)

Outranks-trans : (a b c : PendingEval) → Outranks a b → Outranks b c → Outranks a c
Outranks-trans a b c h k = (omega arith, λ e. omega arith)

further-Outranks : (a b : PendingEval) → further a b ≡ true → Outranks b a
unfolding further
further-Outranks a b h = (ground arith, λ e. ground arith)

not-further-Outranks : (a b : PendingEval) → further a b ≡ false → Outranks a b
unfolding further
not-further-Outranks a b h = (ground arith, λ e. ground arith)

select-swap :
    (a b : PendingEval) (h : List PendingEval)
    → further a b ≡ true
    → select a (b ∷ h) ≡ ((select b h).0, a ∷ (select b h).1)
unfolding select
select-swap a b h e = rw e

select-keep :
    (a b : PendingEval) (h : List PendingEval)
    → further a b ≡ false
    → select a (b ∷ h) ≡ ((select a h).0, b ∷ (select a h).1)
unfolding select
select-keep a b h e = rw e

select-Outranks :
    (a : PendingEval) (h : List PendingEval)
    → let r = select a h in Outranks r.0 a × All (Outranks r.0) r.1
select-Outranks a [] = unfold select in (Outranks-refl a, tt)
select-Outranks a (b ∷ h) = elim (Bool-cases (further a b)) [
  | inl e ↦
      let r = select-Outranks b h in
      let up = Outranks-trans (select b h).0 b a r.0 (further-Outranks a b e) in
      rw (select-swap a b h e) (up, (up, r.1))
  | inr e ↦
      let r = select-Outranks a h in
      rw (select-keep a b h e)
        (r.0, (Outranks-trans (select a h).0 a b r.0 (not-further-Outranks a b e), r.1))
]

select-perm :
    (a : PendingEval) (h : List PendingEval) → Perm (a ∷ h) ((select a h).0 ∷ (select a h).1)
select-perm a [] = unfold select in Perm.refl (a ∷ [])
select-perm a (b ∷ h) = elim (Bool-cases (further a b)) [
  | inl e ↦ rw (select-swap a b h e) (Perm.trans (Perm.cons a (select-perm b h)) (Perm.swap _ _ _))
  | inr e ↦
      rw (select-keep a b h e) (
        Perm.trans (Perm.swap _ _ _) (Perm.trans (Perm.cons b (select-perm a h)) (Perm.swap _ _ _)))
]

pub data Pops (h : List PendingEval) : Option (PendingEval × List PendingEval) → Type 0 where
  empty : h ≡ [] → Pops h none
  greatest :
      (m : PendingEval) (rest : List PendingEval)
      → Perm h (m ∷ rest)
      → All (Outranks m) rest
      → Pops h (some (m, rest))

-- `pop` fails on the empty heap only, and else splits off an entry that outranks all others.
pub pop-Pops : (h : List PendingEval) → Pops h (pop h)
unfolding pop
pop-Pops [] = empty refl
pop-Pops (a ∷ h) = greatest _ _ (select-perm a h) (select-Outranks a h).1

-- What holds of every entry holds of the popped one and of the others.
select-All {ℓ} :
    (P : PendingEval → Type ℓ) (a : PendingEval) (h : List PendingEval)
    → P a
    → All P h
    → P (select a h).0 × All P (select a h).1
select-All P a [] p k = unfold select in (p, tt)
select-All P a (b ∷ h) p k = elim (Bool-cases (further a b)) [
  | inl e ↦ let r = select-All P b h k.0 k.1 in rw (select-swap a b h e) (r.0, (p, r.1))
  | inr e ↦ let r = select-All P a h p k.1 in rw (select-keep a b h e) (r.0, (k.0, r.1))
]

abbrev pub AllPopped {ℓ} : (PendingEval → Type ℓ) → Option (PendingEval × List PendingEval) → Type ℓ
AllPopped P none = Unit
AllPopped P (some (m, rest)) = P m × All P rest

pub pop-All {ℓ} : (P : PendingEval → Type ℓ) (h : List PendingEval) → All P h → AllPopped P (pop h)
unfolding pop
pop-All P [] k = tt
pop-All P (a ∷ h) k = select-All P a h k.0 k.1

-- What holds of some entry holds of the popped one or of one of the others.
select-Any :
    (P : PendingEval → Type 0) (a : PendingEval) (h : List PendingEval)
    → P a ⊎ Any P h
    → P (select a h).0 ⊎ Any P (select a h).1
select-Any P a [] k = unfold select in k
select-Any P a (b ∷ h) k = elim (Bool-cases (further a b)) [
  | inl e ↦ rw (select-swap a b h e) (behind (select b h) a k (select-Any P b h))
  | inr e ↦ rw (select-keep a b h e) (behind (select a h) b (swapped k) (select-Any P a h))
]
  where
    swapped : P a ⊎ (P b ⊎ Any P h) → P b ⊎ (P a ⊎ Any P h)
    swapped (inl p) = inr (inl p)
    swapped (inr (inl p)) = inl p
    swapped (inr (inr p)) = inr (inr p)

    behind :
        {Q : Type 0} (r : PendingEval × List PendingEval) (c : PendingEval)
        → P c ⊎ Q
        → (Q → P r.0 ⊎ Any P r.1)
        → P r.0 ⊎ (P c ⊎ Any P r.1)
    behind r c (inl p) f = inr (inl p)
    behind r c (inr q) f = elim (f q) [ inl p ↦ inl p | inr p ↦ inr (inr p) ]

abbrev pub AnyPopped : (PendingEval → Type 0) → Option (PendingEval × List PendingEval) → Type 0
AnyPopped P none = ⊥
AnyPopped P (some (m, rest)) = P m ⊎ Any P rest

pub pop-Any : (P : PendingEval → Type 0) (h : List PendingEval) → Any P h → AnyPopped P (pop h)
unfolding pop
pop-Any P [] k = k
pop-Any P (a ∷ h) k = select-Any P a h k

-- The sum of the entries' values.
abbrev pub total : (PendingEval → ℕ) → List PendingEval → ℕ
total w [] = 0
total w (p ∷ h) = w p + total w h

total-select :
    (w : PendingEval → ℕ) (a : PendingEval) (h : List PendingEval)
    → w a + total w h ≡ w (select a h).0 + total w (select a h).1
total-select w a [] = unfold select in refl
total-select w a (b ∷ h) = elim (Bool-cases (further a b)) [
  | inl e ↦ rw (select-swap a b h e) (omega (arith, total-select w b h))
  | inr e ↦ rw (select-keep a b h e) (omega (arith, total-select w a h))
]

-- The popped entry and the others have the values of the heap.
pub total-pop :
    (w : PendingEval → ℕ) (h rest : List PendingEval) (m : PendingEval)
    → pop h ≡ some (m, rest)
    → total w h ≡ w m + total w rest
unfolding pop
total-pop w [] rest m e = cc
total-pop w (a ∷ h) rest m e = ground (arith, total-select w a h)

length-select : (a : PendingEval) (h : List PendingEval) → length (select a h).1 ≡ length h
length-select a [] = unfold select in refl
length-select a (b ∷ h) = elim (Bool-cases (further a b)) [
  | inl e ↦ rw (select-swap a b h e) (ap suc (length-select b h))
  | inr e ↦ rw (select-keep a b h e) (ap suc (length-select a h))
]

pub length-pop :
    (h rest : List PendingEval) (m : PendingEval)
    → pop h ≡ some (m, rest)
    → length h ≡ length rest + 1
unfolding pop
length-pop [] rest m e = cc
length-pop (a ∷ h) rest m e = ground (arith, length-select a h)
