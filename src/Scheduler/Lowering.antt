-- ===== src/Scheduler/Lowering.antt =====
-- The list of free capacities: what a placement takes from it, and which candidate is chosen.
use nomad_rs.Base.{
  true, false, ◌≡◌, ◌≢◌, refl, ap, Option, none, some, List, [], ◌∷◌, map, All, Bool-cases,
  str_eq_refl, str_eq_ne, inl, inr, Ordering,
}
use nomad_rs.Constraint.{Matchers}
use nomad_rs.Jobspec.{Resources, TaskGroup}
use nomad_rs.Node.{Node}
use nomad_rs.Scheduler.{
  Candidate, is_feasible, first_fit, reserve, compare_candidates, insert_sorted, sort_by, best,
}
use nomad_rs.Scheduler.Float.{F64}
use nomad_rs.Scheduler.Score.{less, group_demand}

-- No two entries are of nodes with the same id.
abbrev pub DistinctIds : List (Node × Resources) → Type 0
DistinctIds [] = Unit
DistinctIds (e ∷ rest) = All (λ x. e.0.id ≢ x.0.id) rest × DistinctIds rest

module _ (lib : Matchers) (g : TaskGroup) where
  -- The node stands in the list, feasible for the group with the capacity listed there.
  pub data FeasibleIn (n : Node) : List (Node × Resources) → Type 0 where
    now :
        (avail : Resources) (free : List (Node × Resources))
        → is_feasible lib g (group_demand g) (n, avail) ≡ true
        → FeasibleIn n ((n, avail) ∷ free)
    later :
        (e : Node × Resources) (free : List (Node × Resources))
        → FeasibleIn n free
        → FeasibleIn n (e ∷ free)

  -- The demand of the group is taken from one feasible entry, which is of the node.
  pub data Lowered (n : Node) : List (Node × Resources) → List (Node × Resources) → Type 0 where
    now :
        (avail : Resources) (free : List (Node × Resources))
        → is_feasible lib g (group_demand g) (n, avail) ≡ true
        → Lowered n ((n, avail) ∷ free) ((n, less avail (group_demand g)) ∷ free)
    later :
        (e : Node × Resources) (free free' : List (Node × Resources))
        → Lowered n free free'
        → Lowered n (e ∷ free) (e ∷ free')

  pub FeasibleIn-All {ℓ} :
      (P : Node → Type ℓ) {n : Node} {free : List (Node × Resources)}
      → FeasibleIn n free
      → All (λ e. P e.0) free
      → P n
  FeasibleIn-All P (now avail free h) k = k.0
  FeasibleIn-All P (later e free f) k = FeasibleIn-All P f k.1

  pub Lowered-All {ℓ} :
      (P : Node → Type ℓ) {n : Node} {free free' : List (Node × Resources)}
      → Lowered n free free'
      → All (λ e. P e.0) free
      → P n
  Lowered-All P (now avail free h) k = k.0
  Lowered-All P (later e free free' f) k = Lowered-All P f k.1

  -- The nodes stay.
  pub Lowered-nodes :
      {n : Node} {free free' : List (Node × Resources)}
      → Lowered n free free'
      → map (λ e. e.0) free' ≡ map (λ e. e.0) free
  Lowered-nodes (now avail free h) = refl
  Lowered-nodes (later e free free' f) = ap (◌∷◌ e.0) (Lowered-nodes f)

  -- A property of the nodes alone stays too.
  pub Lowered-keeps {ℓ} :
      (P : Node → Type ℓ) {n : Node} {free free' : List (Node × Resources)}
      → Lowered n free free'
      → All (λ e. P e.0) free
      → All (λ e. P e.0) free'
  Lowered-keeps P (now avail free h) k = (k.0, k.1)
  Lowered-keeps P (later e free free' f) k = (k.0, Lowered-keeps P f k.1)

  pub Lowered-DistinctIds :
      {n : Node} {free free' : List (Node × Resources)}
      → Lowered n free free'
      → DistinctIds free
      → DistinctIds free'
  Lowered-DistinctIds (now avail free h) k = (k.0, k.1)
  Lowered-DistinctIds (later e free free' f) k =
      (Lowered-keeps (λ m. e.0.id ≢ m.id) f k.0, Lowered-DistinctIds f k.1)

  abbrev pub FitResult : List (Node × Resources) → Option (Node × List (Node × Resources)) → Type 0
  FitResult free none = All (λ e. is_feasible lib g (group_demand g) e ≡ false) free
  FitResult free (some (n, free')) = Lowered n free free'

  fit_later :
      (e : Node × Resources) (free : List (Node × Resources))
      (r : Option (Node × List (Node × Resources)))
      → is_feasible lib g (group_demand g) e ≡ false
      → FitResult free r
      → FitResult (e ∷ free) (elim r [ none ↦ none | some (m, rest) ↦ some (m, e ∷ rest) ])
  fit_later e free none h k = (h, k)
  fit_later e free (some (m, rest)) h k = later e free rest k

  -- `first_fit` lowers one feasible entry, and fails only if no entry is feasible.
  pub first_fit-FitResult :
      (free : List (Node × Resources)) → FitResult free (first_fit lib g (group_demand g) free)
  unfolding first_fit
  first_fit-FitResult [] = tt
  first_fit-FitResult ((n, avail) ∷ free) =
      elim (Bool-cases (is_feasible lib g (group_demand g) (n, avail))) [
        | inl e ↦ rw e (now avail free e)
        | inr e ↦ rw e (fit_later (n, avail) free _ e (first_fit-FitResult free))
      ]

  abbrev pub ReserveResult :
      Node → List (Node × Resources) → Option (List (Node × Resources)) → Type 0
  ReserveResult n free none = ⊥
  ReserveResult n free (some free') = Lowered n free free'

  reserve_later :
      (n : Node) (e : Node × Resources) (free : List (Node × Resources))
      (r : Option (List (Node × Resources)))
      → ReserveResult n free r
      → ReserveResult n (e ∷ free) (elim r [ none ↦ none | some rest ↦ some (e ∷ rest) ])
  reserve_later n e free none k = k
  reserve_later n e free (some rest) k = later e free rest k

  -- Under distinct ids `reserve` lowers the entry of the node itself.
  pub reserve-ReserveResult :
      {n : Node} {free : List (Node × Resources)}
      → FeasibleIn n free
      → DistinctIds free
      → ReserveResult n free (reserve n.id (group_demand g) free)
  unfolding reserve
  reserve-ReserveResult {n} (now avail free h) d = rw (str_eq_refl n.id) (now avail free h)
  reserve-ReserveResult {n} (later e free f) d =
      rw (str_eq_ne e.0.id n.id (FeasibleIn-All (λ m. e.0.id ≢ m.id) f d.0))
        (reserve_later n e free _ (reserve-ReserveResult f d.1))

module _ (fl : F64) where
  open fl use {F}

  abbrev pub AllBest : (Candidate F → Type 0) → Option (Candidate F) → Type 0
  AllBest P none = Unit
  AllBest P (some c) = P c

  insert_sorted-All :
      (P : Candidate F → Type 0) (c : Candidate F) (cs : List (Candidate F))
      → P c
      → All P cs
      → All P (insert_sorted fl c cs)
  unfolding insert_sorted
  insert_sorted-All P c [] p h = (p, tt)
  insert_sorted-All P c (d ∷ ds) p h =
      by_order (compare_candidates fl c d) (insert_sorted-All P c ds p h.1)
    where
      by_order :
          (o : Ordering)
          → All P (insert_sorted fl c ds)
          → All P (elim o [
            | Ordering.gt ↦ d ∷ insert_sorted fl c ds
            | Ordering.lt ↦ c ∷ d ∷ ds
            | Ordering.eq ↦ c ∷ d ∷ ds
          ])
      by_order Ordering.gt ih = (h.0, ih)
      by_order Ordering.lt ih = (p, h)
      by_order Ordering.eq ih = (p, h)

  sort_by-All :
      (P : Candidate F → Type 0) (cs : List (Candidate F)) → All P cs → All P (sort_by fl cs)
  unfolding sort_by
  sort_by-All P [] h = tt
  sort_by-All P (c ∷ cs) h = insert_sorted-All P c _ h.0 (sort_by-All P cs h.1)

  pub best-All :
      (P : Candidate F → Type 0) (cs : List (Candidate F)) → All P cs → AllBest P (best fl cs)
  unfolding best
  best-All P cs h = first_of_sorted (sort_by fl cs) (sort_by-All P cs h)
    where
      first_of_sorted :
          (ds : List (Candidate F))
          → All P ds
          → AllBest P (elim ds [ [] ↦ none | c ∷ rest ↦ some c ])
      first_of_sorted [] k = tt
      first_of_sorted (d ∷ ds) k = k.0
