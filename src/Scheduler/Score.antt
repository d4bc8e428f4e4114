-- ===== src/Scheduler/Score.antt =====
-- Demands, capacities and scores.
use nomad_rs.Base.{
  ℕ, suc, Bool, true, false, ◌||◌, String, none, some, List, [], ◌∷◌, length, filter, str_eq,
  if◌then◌else◌, ◌==◌,
}
use nomad_rs.Base.Int.{ℤ, pos, ltb_ℤ, add_i32, sub_i32}
use nomad_rs.Base.HashMap.{get}
use nomad_rs.Constraint.{Matchers, Affinity, Spread, SpreadTarget, affinity_satisfied_by}
use nomad_rs.Jobspec.{Resources, Task, TaskGroup, contains}
use nomad_rs.Alloc.{Allocation, ClientStatus, pending, running, complete, failed, lost}
use nomad_rs.Node.{Node}
use nomad_rs.State.{StateStore, list_allocs, list_nodes, get_node, allocs_by_node}
use nomad_rs.Scheduler.Float.{F64}

-- The field-wise sum and difference.
unfoldable pub plus : Resources → Resources → Resources
plus a b = record {
  cpu_mhz = add_i32 a.cpu_mhz b.cpu_mhz;
  memory_mb = add_i32 a.memory_mb b.memory_mb;
  network_mbps = add_i32 a.network_mbps b.network_mbps;
}

unfoldable pub less : Resources → Resources → Resources
less a b = record {
  cpu_mhz = sub_i32 a.cpu_mhz b.cpu_mhz;
  memory_mb = sub_i32 a.memory_mb b.memory_mb;
  network_mbps = sub_i32 a.network_mbps b.network_mbps;
}

abbrev pub no_resources : Resources
no_resources = record { cpu_mhz = pos 0; memory_mb = pos 0; network_mbps = pos 0 }

-- The fold of `group_demand`.
unfoldable pub demand_from : Resources → List Task → Resources
demand_from acc [] = acc
demand_from acc (t ∷ ts) = demand_from (plus acc t.resources) ts

unfoldable pub group_demand : TaskGroup → Resources
unfolding demand_from plus
group_demand g = demand_from no_resources g.tasks

unfoldable pub is_live : ClientStatus → Bool
is_live pending = true
is_live running = true
is_live complete = false
is_live failed = false
is_live lost = false

-- The fold of `free_capacity`.
unfoldable pub free_from : Resources → List Allocation → Resources
free_from free [] = free
free_from free (a ∷ rest) = free_from (less free a.resources) rest

unfoldable pub free_capacity : Node → StateStore → Resources
free_capacity n s =
    free_from n.resources (filter (λ a. is_live a.client_status) (allocs_by_node n.id s))

-- The number of different texts: the size of a `HashSet`.
unfoldable pub count_distinct : List String → ℕ
count_distinct [] = 0
count_distinct (x ∷ xs) = if contains x xs then count_distinct xs else suc (count_distinct xs)

-- `nodes.filter_map(|n| n.attributes.get(attribute))`.
unfoldable pub attribute_values : String → List Node → List String
attribute_values k [] = []
attribute_values k (n ∷ ns) = elim (get k n.attributes) [
  | none ↦ attribute_values k ns
  | some v ↦ v ∷ attribute_values k ns
]

-- `state.get_node(..).is_some_and(|n| n.attributes.get(attribute) == Some(val))`.
unfoldable pub on_value : String → String → StateStore → Allocation → Bool
on_value k val s a = elim (get_node a.node_id s) [
  | none ↦ false
  | some n ↦ elim (get k n.attributes) [ none ↦ false | some v ↦ str_eq v val ]
]

module _ (fl : F64) where
  open fl use {F, of_ℕ, of_int, add, sub, mul, div, sum_start, is_positive}

  unfoldable pub sum_percent : String → F → List SpreadTarget → F
  sum_percent val acc [] = acc
  sum_percent val acc (t ∷ ts) =
      sum_percent val (if str_eq t.value val then add acc (of_int (pos t.percent)) else acc) ts

  -- The target percent of a value: the listed one, or an even share.
  unfoldable pub target_percent : Spread → String → StateStore → F
  unfolding sum_percent
  target_percent sp val s =
      let listed = sum_percent val sum_start sp.targets in
      let unique = count_distinct (attribute_values sp.attribute (list_nodes s)) in
      if is_positive listed
      then listed
      else div (of_ℕ 100) (of_ℕ (if unique == 0 then 1 else unique))

  -- What one spread of the group adds to the bonus.
  unfoldable pub spread_term : Spread → String → StateStore → F → F
  unfolding target_percent
  spread_term sp val s bonus =
      let live = filter (λ a. is_live a.client_status) (list_allocs s) in
      let here = filter (λ a. on_value sp.attribute val s a) live in
      let current = mul (div (of_ℕ (length here)) (of_ℕ (length live))) (of_ℕ 100) in
      let next = sub bonus (mul (sub current (target_percent sp val s)) (of_ℕ 1)) in
      if length live == 0 then bonus else next

  -- `SpreadRanker::bonus_for`, with its loop.
  unfoldable pub bonus_from : F → List Spread → Node → StateStore → F
  unfolding spread_term
  bonus_from bonus [] n s = bonus
  bonus_from bonus (sp ∷ sps) n s =
      bonus_from
        (elim (get sp.attribute n.attributes) [
          | none ↦ bonus
          | some val ↦ spread_term sp val s bonus
        ])
        sps n s

  unfoldable pub bonus_for : TaskGroup → Node → StateStore → F
  unfolding bonus_from
  bonus_for g n s = bonus_from (of_ℕ 0) g.spreads n s

  -- The used fraction of one resource.
  unfoldable pub utilization : ℤ → ℤ → F
  utilization total after =
      if ltb_ℤ (pos 0) total then div (of_int (sub_i32 total after)) (of_int total) else of_ℕ 0

  unfoldable pub bin_pack : Node → Resources → F → F
  unfolding utilization
  bin_pack n after score =
      let cpu = utilization n.resources.cpu_mhz after.cpu_mhz in
      let mem = utilization n.resources.memory_mb after.memory_mb in
      let net = utilization n.resources.network_mbps after.network_mbps in
      let average = div (add (add cpu mem) net) (of_ℕ 3) in
      if ltb_ℤ (pos 0) after.cpu_mhz
        || (ltb_ℤ (pos 0) after.memory_mb || ltb_ℤ (pos 0) after.network_mbps)
      then add score (mul average (of_ℕ 50))
      else score

module _ (lib : Matchers) (fl : F64) where
  open fl use {F, of_ℕ, of_int, add}

  -- The weights of the satisfied affinities.
  unfoldable pub affinity_from : F → List Affinity → Node → F
  affinity_from score [] n = score
  affinity_from score (a ∷ rest) n =
      affinity_from
        (if affinity_satisfied_by lib a n.attributes then add score (of_int a.weight) else score)
        rest n

  unfoldable pub score_node : Node → Resources → Resources → TaskGroup → F → F
  unfolding affinity_from bin_pack less
  score_node n free need g spread_bonus =
      add (bin_pack fl n (less free need) (affinity_from (of_ℕ 0) g.affinities n)) spread_bonus
