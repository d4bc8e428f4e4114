-- ===== src/Scheduler/Steps.antt =====
-- The loops of process_eval of scheduler.rs as runs of placements.
use nomad_rs.Base.{
  ℕ, zero, suc, ◌+◌, Bool, true, false, Option, none, some, List, [], ◌∷◌, ◌++◌, All, All-map,
  Bool-cases, inl, inr,
}
use nomad_rs.Constraint.{Matchers}
use nomad_rs.Jobspec.{Resources, TaskGroup, Job}
use nomad_rs.Eval.{Evaluation}
use nomad_rs.Node.{Node}
use nomad_rs.State.{StateStore}
use nomad_rs.Scheduler.{
  Work, Candidate, is_feasible, reserve, place_first, place_best, place_group, place_groups,
  make_alloc, candidates, rounds, has_preferences,
}
use nomad_rs.Scheduler.Float.{F64}
use nomad_rs.Scheduler.Score.{group_demand}
use nomad_rs.Scheduler.Lowering.{
  DistinctIds, FeasibleIn, Lowered, now, later, Lowered-DistinctIds, FitResult, first_fit-FitResult,
  ReserveResult, reserve-ReserveResult, AllBest, best-All,
}

module _ (lib : Matchers) (ev : Evaluation) (job : Job) where
  -- One placement: the group's demand is taken from one feasible entry, and the allocation
  -- for it is added to the plan.
  pub data Places (g : TaskGroup) (w : Work) : Work → Type 0 where
    place :
        (n : Node) (free : List (Node × Resources))
        → Lowered lib g n w.free free
        → Places g w (record {
          free = free;
          allocs = w.allocs ++ make_alloc ev w.allocs job g (group_demand g) n.id ∷ [];
        })

  -- At most so many placements for one group.
  pub data Run (g : TaskGroup) : Work → ℕ → Work → Type 0 where
    done : (k : ℕ) {w : Work} → Run g w k w
    more : (k : ℕ) {w u v : Work} → Places g w u → Run g u k v → Run g w (suc k) v

  -- The groups in order, each with at most as many placements as its count.
  pub data Runs : List TaskGroup → Work → Work → Type 0 where
    finish : {w : Work} → Runs [] w w
    group :
        (g : TaskGroup) {gs : List TaskGroup} {w u v : Work}
        → Run g w (rounds g.count) u
        → Runs gs u v
        → Runs (g ∷ gs) w v

  first_step :
      (g : TaskGroup) (k : ℕ) (w : Work) (r : Option (Node × List (Node × Resources)))
      → ((u : Work) → Run g u k (place_first lib ev job g k u))
      → FitResult lib g w.free r
      → Run g w (suc k) (elim r [
        | none ↦ w
        | some (n, free) ↦ place_first lib ev job g k (record {
          free = free;
          allocs = w.allocs ++ make_alloc ev w.allocs job g (group_demand g) n.id ∷ [];
        })
      ])
  first_step g k w none ih f = done (suc k)
  first_step g k w (some (n, free)) ih f = more k (place n free f) (ih _)

  -- The fast path is a run of placements.
  pub place_first-Run :
      (g : TaskGroup) (k : ℕ) (w : Work) → Run g w k (place_first lib ev job g k w)
  unfolding place_first
  place_first-Run g zero w = done zero
  place_first-Run g (suc k) w =
      first_step g k w _ (place_first-Run g k) (first_fit-FitResult lib g w.free)

  module _ (fl : F64) (s : StateStore) (g : TaskGroup) where
    open fl use {F}

    candidates-FeasibleIn :
        (idx : ℕ) (free : List (Node × Resources))
        → All (λ c. FeasibleIn lib g c.node free) (candidates lib ev job g fl s idx free)
    unfolding candidates
    candidates-FeasibleIn idx [] = tt
    candidates-FeasibleIn idx ((n, avail) ∷ free) =
        let rest =
          All-map _ (λ c. FeasibleIn lib g c.node ((n, avail) ∷ free)) _
            (λ c f. later (n, avail) free f) (candidates-FeasibleIn (idx + 1) free) in
        elim (Bool-cases (is_feasible lib g (group_demand g) (n, avail))) [
          | inl e ↦ rw e (now avail free e, rest)
          | inr e ↦ rw e rest
        ]

    reserve_step :
        (k : ℕ) (w : Work) (n : Node) (r : Option (List (Node × Resources)))
        → ((u : Work) → DistinctIds u.free → Run g u k (place_best lib ev job g fl s k u))
        → DistinctIds w.free
        → ReserveResult lib g n w.free r
        → Run g w (suc k) (elim r [
          | none ↦ place_best lib ev job g fl s k w
          | some free ↦ place_best lib ev job g fl s k (record {
            free = free;
            allocs = w.allocs ++ make_alloc ev w.allocs job g (group_demand g) n.id ∷ [];
          })
        ])
    reserve_step k w n none ih d r = absurd r
    reserve_step k w n (some free) ih d r =
        more k (place n free r) (ih _ (Lowered-DistinctIds lib g r d))

    best_step :
        (k : ℕ) (w : Work) (r : Option (Candidate F))
        → ((u : Work) → DistinctIds u.free → Run g u k (place_best lib ev job g fl s k u))
        → DistinctIds w.free
        → AllBest fl (λ c. FeasibleIn lib g c.node w.free) r
        → Run g w (suc k) (elim r [
          | none ↦ w
          | some c ↦ elim (reserve c.node.id (group_demand g) w.free) [
            | none ↦ place_best lib ev job g fl s k w
            | some free ↦ place_best lib ev job g fl s k (record {
              free = free;
              allocs = w.allocs ++ make_alloc ev w.allocs job g (group_demand g) c.node.id ∷ [];
            })
          ]
        ])
    best_step k w none ih d f = done (suc k)
    best_step k w (some c) ih d f = reserve_step k w c.node _ ih d (reserve-ReserveResult lib g f d)

    -- The scoring path is a run of placements too, if no two nodes share an id.
    pub place_best-Run :
        (k : ℕ) (w : Work) → DistinctIds w.free → Run g w k (place_best lib ev job g fl s k w)
    unfolding place_best
    place_best-Run zero w d = done zero
    place_best-Run (suc k) w d =
        best_step k w _ (place_best-Run k) d
          (best-All fl (λ c. FeasibleIn lib g c.node w.free) _ (candidates-FeasibleIn 0 w.free))

  Run-DistinctIds :
      {g : TaskGroup} {k : ℕ} {w v : Work} → Run g w k v → DistinctIds w.free → DistinctIds v.free
  Run-DistinctIds (done k) d = d
  Run-DistinctIds {g} (more k (place n free l) r) d =
      Run-DistinctIds r (Lowered-DistinctIds lib g l d)

  module _ (fl : F64) (s : StateStore) where
    place_group-Run :
        (g : TaskGroup) (w : Work)
        → DistinctIds w.free
        → Run g w (rounds g.count) (place_group lib fl ev job s g w)
    unfolding place_group
    place_group-Run g w d = by_path (has_preferences lib fl g)
      where
        by_path :
            (b : Bool)
            → Run g w (rounds g.count) (elim b [
              | false ↦ place_first lib ev job g (rounds g.count) w
              | true ↦ place_best lib ev job g fl s (rounds g.count) w
            ])
        by_path false = place_first-Run g (rounds g.count) w
        by_path true = place_best-Run fl s g (rounds g.count) w d

    -- The loop over the groups, on both paths.
    pub place_groups-Runs :
        (gs : List TaskGroup) (w : Work)
        → DistinctIds w.free
        → Runs gs w (place_groups lib fl ev job s gs w)
    unfolding place_groups
    place_groups-Runs [] w d = finish
    place_groups-Runs (g ∷ gs) w d =
        let r = place_group-Run g w d in
        group g r (place_groups-Runs gs (place_group lib fl ev job s g w) (Run-DistinctIds r d))
