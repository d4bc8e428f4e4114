-- ===== src/Scheduler/Placements.antt =====
-- What each allocation of a plan is.
use nomad_rs.Base.{
  ℕ, suc, ◌+◌, ◌≤◌, true, ◌≡◌, refl, ◌∙◌, ap, String, List, [], ◌∷◌, ◌++◌, All, All-append, length,
  length-append, arith, alloc_name,
}
use nomad_rs.Constraint.{Matchers}
use nomad_rs.Jobspec.{Resources, TaskGroup, Job}
use nomad_rs.Alloc.{Allocation}
use nomad_rs.Eval.{Evaluation}
use nomad_rs.Node.{Node}
use nomad_rs.Scheduler.{Work, is_feasible, meets_constraints, make_alloc, rounds}
use nomad_rs.Scheduler.Score.{group_demand}
use nomad_rs.Scheduler.Lowering.{Lowered, now, later, Lowered-All, Lowered-keeps}
use nomad_rs.Scheduler.Steps.{place, Run, done, more, Runs, finish, group}

-- The allocations from the k-th on carry the names of their places in the plan.
abbrev pub Named : String → ℕ → List Allocation → Type 0
Named id k [] = Unit
Named id k (a ∷ rest) = (a.id ≡ alloc_name id k) × Named id (suc k) rest

-- The most that the groups ask for.
unfoldable pub asked : List TaskGroup → ℕ
asked [] = 0
asked (g ∷ gs) = rounds g.count + asked gs

module _ (lib : Matchers) where
  feasible-meets :
      (g : TaskGroup) (need : Resources) (e : Node × Resources)
      → is_feasible lib g need e ≡ true
      → meets_constraints lib e.0 g ≡ true
  unfolding is_feasible
  feasible-meets g need e h = ground arith

  Lowered-meets :
      (g : TaskGroup) {n : Node} {free free' : List (Node × Resources)}
      → Lowered lib g n free free'
      → meets_constraints lib n g ≡ true
  Lowered-meets g {n} (now avail free h) = feasible-meets g (group_demand g) (n, avail) h
  Lowered-meets g (later e free free' l) = Lowered-meets g l

  module _ (ev : Evaluation) (job : Job) (P : Allocation → Type 0) (Q : Node → Type 0) where
    -- Whatever a group makes on a node that meets its constraints has the property.
    abbrev pub Makes : TaskGroup → Type 0
    Makes g =
        (xs : List Allocation) (n : Node)
        → Q n
        → meets_constraints lib n g ≡ true
        → P (make_alloc ev xs job g (group_demand g) n.id)

    pub record Kept (w : Work) : Type 0 where
      pub nodes : All (λ e. Q e.0) w.free
      pub allocs : All P w.allocs

    Run-Kept :
        {g : TaskGroup} {k : ℕ} {w v : Work} → Makes g → Run lib ev job g w k v → Kept w → Kept v
    Run-Kept m (done k) h = h
    Run-Kept {g} {w = w} m (more k (place n free l) r) h = Run-Kept m r (record {
      nodes = Lowered-keeps lib g Q l h.nodes;
      allocs =
          All-append P w.allocs _ h.allocs
            (m w.allocs n (Lowered-All lib g Q l h.nodes) (Lowered-meets g l), tt);
    })

    -- A property of all that the groups make holds of the whole plan.
    pub Runs-Kept :
        {gs : List TaskGroup} {w v : Work} → All Makes gs → Runs lib ev job gs w v → Kept w → Kept v
    Runs-Kept m finish h = h
    Runs-Kept m (group g r rs) h = Runs-Kept m.1 rs (Run-Kept m.0 r h)

  module _ (ev : Evaluation) (job : Job) where
    Named-append :
        (k : ℕ) (xs : List Allocation) (a : Allocation)
        → a.id ≡ alloc_name ev.id (k + length xs)
        → Named ev.id k xs
        → Named ev.id k (xs ++ a ∷ [])
    Named-append k [] a e h = (e ∙ ap (alloc_name ev.id) (omega arith), tt)
    Named-append k (x ∷ xs) a e h =
        (h.0, Named-append (suc k) xs a (e ∙ ap (alloc_name ev.id) (omega arith)) h.1)

    id-make_alloc :
        (xs : List Allocation) (g : TaskGroup) (id : String)
        → (make_alloc ev xs job g (group_demand g) id).id ≡ alloc_name ev.id (length xs)
    unfolding make_alloc
    id-make_alloc xs g id = refl

    Run-Named :
        {g : TaskGroup} {k : ℕ} {w v : Work}
        → Run lib ev job g w k v
        → Named ev.id 0 w.allocs
        → Named ev.id 0 v.allocs × (length v.allocs ≤ length w.allocs + k)
    Run-Named (done k) h = (h, omega arith)
    Run-Named {g} {w = w} (more k (place n free l) r) h =
        let made = make_alloc ev w.allocs job g (group_demand g) n.id in
        let named =
          Named-append 0 w.allocs made
            (id-make_alloc w.allocs g n.id ∙ ap (alloc_name ev.id) (omega arith)) h in
        let (named', bound) = Run-Named r named in
        (named', omega (arith, bound, length-append w.allocs (made ∷ [])))

    -- The plan's allocations are named by their places, and are no more than the groups ask for.
    pub Runs-Named :
        {gs : List TaskGroup} {w v : Work}
        → Runs lib ev job gs w v
        → Named ev.id 0 w.allocs
        → Named ev.id 0 v.allocs × (length v.allocs ≤ length w.allocs + asked gs)
    unfolding asked
    Runs-Named finish h = (h, omega arith)
    Runs-Named (group g r rs) h =
        let (named, bound) = Run-Named r h in
        let (named', bound') = Runs-Named rs named in (named', omega (arith, bound, bound'))
