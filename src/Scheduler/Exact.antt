-- ===== src/Scheduler/Exact.antt =====
-- free_capacity of scheduler.rs without a wrap, and the ids of the eligible nodes.
use nomad_rs.Base.{
  ◌≡◌, ◌≢◌, refl, ◌∙◌, ap, String, none, List, [], ◌∷◌, All, All-filter, map-All, arith, inl, inr,
  str_eq, map, filter, Bool-cases,
}
use nomad_rs.Base.Int.{ℤ, pos, ◌+ℤ◌, ◌-ℤ◌, ◌≤ℤ◌, InI32, int_laws}
use nomad_rs.Base.HashMap.{HashMap, Distinct, get, values}
use nomad_rs.Jobspec.{Resources}
use nomad_rs.Alloc.{Allocation}
use nomad_rs.Node.{Node, validate_node}
use nomad_rs.Error.{ok}
use nomad_rs.State.{StateStore, list_allocs}
use nomad_rs.Scheduler.{node_eligible}
use nomad_rs.Scheduler.Score.{less, free_from, is_live}
use nomad_rs.Scheduler.Lowering.{DistinctIds}
use nomad_rs.Scheduler.Capacity.{Dimension, of, of-less, sub_exact, load, placed}

pub map_first :
    (f : Node → Resources) (ns : List Node)
    → map (λ (e : Node × Resources). e.0) (map (λ n. (n, f n)) ns) ≡ ns
map_first f [] = refl
map_first f (n ∷ ns) = ap (◌∷◌ n) (map_first f ns)

-- The demands of a list of allocations.
pub total : Dimension → List Allocation → ℤ
total d [] = pos 0
total d (a ∷ rest) = of d a.resources +ℤ total d rest

total_nonneg :
    (d : Dimension) (xs : List Allocation)
    → All (λ a. pos 0 ≤ℤ of d a.resources) xs
    → pos 0 ≤ℤ total d xs
unfolding total
total_nonneg d [] p = omega arith
total_nonneg d (a ∷ rest) p = omega (int_laws, total_nonneg d rest p.1)

add_back : (f x t r : ℤ) → f +ℤ t ≡ r -ℤ x → f +ℤ (x +ℤ t) ≡ r
add_back f x t r e = swap ∙ (ap (λ z. x +ℤ z) e ∙ again)
  where
    swap : f +ℤ (x +ℤ t) ≡ x +ℤ (f +ℤ t)
    swap = omega int_laws

    again : x +ℤ (r -ℤ x) ≡ r
    again = omega int_laws

-- Repeated subtraction from enough does not wrap, and leaves the difference.
pub free_from_exact :
    (d : Dimension) (r : Resources) (xs : List Allocation)
    → InI32 (of d r)
    → All (λ a. pos 0 ≤ℤ of d a.resources) xs
    → total d xs ≤ℤ of d r
    → (of d (free_from r xs) +ℤ total d xs ≡ of d r)
      × InI32 (of d (free_from r xs))
      × (pos 0 ≤ℤ of d (free_from r xs))
unfolding total free_from
free_from_exact d r [] i p l = (omega int_laws, i, l)
free_from_exact d r (a ∷ rest) i p l =
    let t = total_nonneg d rest p.1 in
    let x = sub_exact (of d r) (of d a.resources) i p.0 (omega int_laws) in
    let left : of d (less r a.resources) ≡ of d r -ℤ of d a.resources =
      of-less d r a.resources ∙ x.0 in
    let ih =
      free_from_exact d (less r a.resources) rest (rw left x.1) p.1 (rw left (omega int_laws)) in
    (add_back _ _ _ _ (ih.0 ∙ left), ih.1, ih.2)

-- The allocations that reserve capacity.
unfoldable pub live_allocs : StateStore → List Allocation
live_allocs s = filter (λ a. is_live a.client_status) (list_allocs s)

-- Filtering by the node first and by life then, or the other way round.
pub total-load :
    (d : Dimension) (id : String) (xs : List Allocation)
    → total d (filter (λ a. is_live a.client_status) (filter (λ a. str_eq a.node_id id) xs))
      ≡ load d id (filter (λ a. is_live a.client_status) xs)
unfolding total load
total-load d id [] = refl
total-load d id (x ∷ xs) = ground (arith, total-load d id xs)

pub load-unplaced :
    (d : Dimension) (id : String) (xs : List Allocation) → placed id xs ≡ 0 → load d id xs ≡ pos 0
unfolding load placed
load-unplaced d id [] h = refl
load-unplaced d id (x ∷ xs) h = ground (arith, load-unplaced d id xs)

-- The ids of the eligible nodes of a valid store differ.
absent :
    (k : String) (m : HashMap Node)
    → get k m ≡ none
    → All (λ e. (e.0 ≡ e.1.id) × (validate_node e.1 ≡ ok tt)) m
    → All (λ n. k ≢ n.id) (values m)
unfolding get
absent k [] h f = tt
absent k ((j, n) ∷ m) h f = (λ e. ground arith, absent k m (ground arith) f.1)

pub start-DistinctIds :
    (cap : Node → Resources) (m : HashMap Node)
    → Distinct m
    → All (λ e. (e.0 ≡ e.1.id) × (validate_node e.1 ≡ ok tt)) m
    → DistinctIds (map (λ n. (n, cap n)) (filter node_eligible (values m)))
start-DistinctIds cap [] d f = tt
start-DistinctIds cap ((j, n) ∷ m) d f = elim (Bool-cases (node_eligible n)) [
  | inl e ↦ rw e (
    map-All (λ x. (x, cap x)) (λ x. n.id ≢ x.0.id) _
        (All-filter _ node_eligible (values m) (absent n.id m (rw (f.0.0) at d.0) f.1)),
    start-DistinctIds cap m d.1 f.1,
  )
  | inr e ↦ rw e (start-DistinctIds cap m d.1 f.1)
]
