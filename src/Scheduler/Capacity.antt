-- ===== src/Scheduler/Capacity.antt =====
-- process_eval of scheduler.rs: the books of a node while the plan grows.
use nomad_rs.Base.{
  ℕ, suc, ◌+◌, true, ◌≡◌, ◌≢◌, refl, sym, ◌∙◌, String, List, [], ◌∷◌, ◌++◌, All, All-map, arith,
  ◌⊎◌, inr, str_eq, if◌then◌else◌, str_eq_refl, str_eq_ne,
}
use nomad_rs.Base.Int.{
  ℤ, pos, negsuc, ◌+ℤ◌, ◌-ℤ◌, ◌≤ℤ◌, InI32, sub_i32, wrap_i32_id, int_laws, +ℤ_comm, +ℤ_assoc,
}
use nomad_rs.Jobspec.{Resources, TaskGroup, Job}
use nomad_rs.Alloc.{Allocation}
use nomad_rs.Node.{Node}
use nomad_rs.Constraint.{Matchers}
use nomad_rs.Eval.{Evaluation}
use nomad_rs.Scheduler.{Work, fits, is_feasible, make_alloc}
use nomad_rs.Scheduler.Score.{less, group_demand}
use nomad_rs.Scheduler.Lowering.{DistinctIds, Lowered, Lowered-All, Lowered-DistinctIds, now, later}
use nomad_rs.Scheduler.Steps.{place, Run, done, more, Runs, finish, group}

pub data Dimension : Type 0 where
  cpu memory network : Dimension

-- One resource.
abbrev pub of : Dimension → Resources → ℤ
of cpu r = r.cpu_mhz
of memory r = r.memory_mb
of network r = r.network_mbps

pub of-less : (d : Dimension) (a b : Resources) → of d (less a b) ≡ sub_i32 (of d a) (of d b)
unfolding less
of-less cpu a b = refl
of-less memory a b = refl
of-less network a b = refl

of-fits : (d : Dimension) (a b : Resources) → fits a b ≡ true → of d b ≤ℤ of d a
unfolding fits
of-fits cpu a b h = ground arith
of-fits memory a b h = ground arith
of-fits network a b h = ground arith

-- A subtraction that leaves a number between 0 and the minuend does not wrap.
pub sub_in_range : (a b : ℤ) → InI32 a → pos 0 ≤ℤ b → b ≤ℤ a → InI32 (a -ℤ b) × (pos 0 ≤ℤ a -ℤ b)
unfolding ◌-ℤ◌
sub_in_range (pos n) (pos m) r p l = ground arith
sub_in_range (pos n) (negsuc m) r p l = absurd (omega arith)
sub_in_range (negsuc n) b r p l = absurd (omega arith)

pub sub_exact :
    (a b : ℤ)
    → InI32 a
    → pos 0 ≤ℤ b
    → b ≤ℤ a
    → (sub_i32 a b ≡ a -ℤ b) × InI32 (a -ℤ b) × (pos 0 ≤ℤ a -ℤ b)
unfolding sub_i32
sub_exact a b r p l = let k = sub_in_range a b r p l in (wrap_i32_id _ k.0, k.0, k.1)

-- What the plan takes of a node: the sum of the demands placed on it, and their number.
unfoldable pub load : Dimension → String → List Allocation → ℤ
load d id [] = pos 0
load d id (a ∷ rest) =
    let others = load d id rest in
    if str_eq a.node_id id then of d a.resources +ℤ others else others

unfoldable pub placed : String → List Allocation → ℕ
placed id [] = 0
placed id (a ∷ rest) =
    let others = placed id rest in if str_eq a.node_id id then suc others else others

load-append :
    (d : Dimension) (id : String) (xs : List Allocation) (a : Allocation)
    → load d id (xs ++ a ∷ [])
      ≡ (if str_eq a.node_id id then load d id xs +ℤ of d a.resources else load d id xs)
unfolding load
load-append d id [] a = ground (arith, +ℤ_comm (pos 0) (of d a.resources))
load-append d id (x ∷ xs) a =
    ground
      (arith, load-append d id xs a, +ℤ_assoc (of d x.resources) (load d id xs) (of d a.resources))

placed-append :
    (id : String) (xs : List Allocation) (a : Allocation)
    → placed id (xs ++ a ∷ []) ≡ (if str_eq a.node_id id then placed id xs + 1 else placed id xs)
unfolding placed
placed-append id [] a = ground arith
placed-append id (x ∷ xs) a = ground (arith, placed-append id xs a)

regroup : (a b l : ℤ) → a -ℤ b +ℤ (l +ℤ b) ≡ a +ℤ l
regroup a b l = omega int_laws

feasible-fits :
    (lib : Matchers) (g : TaskGroup) (need : Resources) (n : Node) (avail : Resources)
    → is_feasible lib g need (n, avail) ≡ true
    → fits avail need ≡ true
unfolding is_feasible
feasible-fits lib g need n avail h = ground arith

-- The demand of the group is not negative in the resource.
abbrev pub Demands : Dimension → TaskGroup → Type 0
Demands d g = pos 0 ≤ℤ of d (group_demand g)

node_id-make_alloc :
    (ev : Evaluation) (xs : List Allocation) (job : Job) (g : TaskGroup) (id : String)
    → (make_alloc ev xs job g (group_demand g) id).node_id ≡ id
unfolding make_alloc
node_id-make_alloc ev xs job g id = refl

resources-make_alloc :
    (ev : Evaluation) (xs : List Allocation) (job : Job) (g : TaskGroup) (id : String)
    → (make_alloc ev xs job g (group_demand g) id).resources ≡ group_demand g
unfolding make_alloc
resources-make_alloc ev xs job g id = refl

module _ (lib : Matchers) (d : Dimension) (cap : Node → Resources) where
  -- The books of one node: what is left and what the plan takes add up to its capacity, and what
  -- is left is not negative once something was placed.
  pub record Holds (placements : List Allocation) (e : Node × Resources) : Type 0 where
    pub balance : of d e.1 +ℤ load d e.0.id placements ≡ of d (cap e.0)
    pub ranged : InI32 (of d e.1)
    pub covered : (placed e.0.id placements ≡ 0) ⊎ (pos 0 ≤ℤ of d e.1)

  -- An allocation elsewhere leaves a node's books alone.
  Holds-elsewhere :
      (xs : List Allocation) (a : Allocation) (e : Node × Resources)
      → a.node_id ≢ e.0.id
      → Holds xs e
      → Holds (xs ++ a ∷ []) e
  Holds-elsewhere xs a e n h = record {
    balance = rw (load-append d e.0.id xs a, str_eq_ne a.node_id e.0.id n) h.balance;
    ranged = h.ranged;
    covered = rw (placed-append e.0.id xs a, str_eq_ne a.node_id e.0.id n) h.covered;
  }

  Holds-all_elsewhere :
      (xs : List Allocation) (a : Allocation) (free : List (Node × Resources))
      → All (λ e. a.node_id ≢ e.0.id) free
      → All (Holds xs) free
      → All (Holds (xs ++ a ∷ [])) free
  Holds-all_elsewhere xs a [] n h = tt
  Holds-all_elsewhere xs a (e ∷ free) n h =
      (Holds-elsewhere xs a e n.0 h.0, Holds-all_elsewhere xs a free n.1 h.1)

  -- A feasible placement keeps the books of its own node.
  Holds-here :
      (g : TaskGroup) (xs : List Allocation) (a : Allocation) (n : Node) (avail : Resources)
      → a.node_id ≡ n.id
      → a.resources ≡ group_demand g
      → Demands d g
      → is_feasible lib g (group_demand g) (n, avail) ≡ true
      → Holds xs (n, avail)
      → Holds (xs ++ a ∷ []) (n, less avail (group_demand g))
  Holds-here g xs a n avail e r p f h =
      let need = group_demand g in
      let x =
        sub_exact (of d avail) (of d need) h.ranged p
          (of-fits d avail need (feasible-fits lib g need n avail f)) in
      let left : of d (less avail need) ≡ of d avail -ℤ of d need = of-less d avail need ∙ x.0 in
      let here : str_eq a.node_id n.id ≡ true = rw e (str_eq_refl n.id) in
      record {
        balance =
            rw (load-append d n.id xs a, here, left, r)
              (regroup (of d avail) (of d need) (load d n.id xs) ∙ h.balance);
        ranged = rw left x.1;
        covered = inr (rw left x.2);
      }

  -- So does the list after the placement.
  Lowered-Holds :
      (g : TaskGroup) (xs : List Allocation) (a : Allocation) {n : Node}
      {free free' : List (Node × Resources)}
      → a.node_id ≡ n.id
      → a.resources ≡ group_demand g
      → Demands d g
      → Lowered lib g n free free'
      → DistinctIds free
      → All (Holds xs) free
      → All (Holds (xs ++ a ∷ [])) free'
  Lowered-Holds g xs a {n} e r p (now avail free f) ids h = (
    Holds-here g xs a n avail e r p f h.0,
    Holds-all_elsewhere xs a free (All-map _ _ free (λ x m. rw e m) ids.0) h.1,
  )
  Lowered-Holds g xs a {n} e r p (later x free free' l) ids h = (
    Holds-elsewhere xs a x (λ q. Lowered-All lib g (λ m. x.0.id ≢ m.id) l ids.0 (sym q ∙ e)) h.0,
    Lowered-Holds g xs a e r p l ids.1 h.1,
  )

  module _ (ev : Evaluation) (job : Job) where
    -- The books are right for every node, of which no two share an id.
    pub record Books (w : Work) : Type 0 where
      pub distinct : DistinctIds w.free
      pub holds : All (Holds w.allocs) w.free

    Run-Books :
        {g : TaskGroup} {k : ℕ} {w v : Work}
        → Demands d g
        → Run lib ev job g w k v
        → Books w
        → Books v
    Run-Books p (done k) b = b
    Run-Books {g} {w = w} p (more k (place n free l) r) b = Run-Books p r (record {
      distinct = Lowered-DistinctIds lib g l b.distinct;
      holds =
          Lowered-Holds g w.allocs _ (node_id-make_alloc ev w.allocs job g n.id)
            (resources-make_alloc ev w.allocs job g n.id) p l b.distinct b.holds;
    })

    pub Runs-Books :
        {gs : List TaskGroup} {w v : Work}
        → All (Demands d) gs
        → Runs lib ev job gs w v
        → Books w
        → Books v
    Runs-Books p finish b = b
    Runs-Books p (group g r rs) b = Runs-Books p.1 rs (Run-Books p.0 r b)
