-- ===== src/Scheduler.antt =====
-- scheduler.rs: feasibility, ranking and placement.
pub mod Float
pub mod Score
pub mod Lowering
pub mod Steps
pub mod Capacity
pub mod Exact
pub mod Subscribed
pub mod Drain
pub mod Placements
pub mod Placed
pub mod Ranking
use nomad_rs.Base.{
  ℕ, zero, suc, ◌+◌, Bool, true, false, not, ◌&&◌, ◌||◌, String, Option, none, some, List, [], ◌∷◌,
  ◌++◌, length, filter, map, str_eq, if◌then◌else◌, compare, Ordering, alloc_name,
}
use nomad_rs.Base.Int.{ℤ, pos, pos_part, leb_ℤ, ltb_ℤ, add_i32, sub_i32}
use nomad_rs.Constraint.{Constraint, Matchers, satisfied_by}
use nomad_rs.Error.{Error, Result, ok, err, ◌>>=◌}
use nomad_rs.Jobspec.{Resources, Task, TaskGroup, Job}
use nomad_rs.Alloc.{Allocation, ClientStatus, pending, run}
use nomad_rs.Eval.{Evaluation}
use nomad_rs.Node.{Node, is_ready_status, is_eligible}
use nomad_rs.State.{StateStore, get_job, list_nodes}
use nomad_rs.Fsm.{Fsm, Command, apply, upsert_alloc}
use Float.{F64}
use Score.{group_demand, free_capacity, bonus_for, score_node, less}

pub record Plan : Type 0 where
  pub allocs : List Allocation

-- `node_eligible`.
unfoldable pub node_eligible : Node → Bool
node_eligible n = is_ready_status n.status && (is_eligible n.eligibility && not n.draining)

unfoldable pub fits : Resources → Resources → Bool
fits avail need =
    leb_ℤ need.cpu_mhz avail.cpu_mhz
    && (leb_ℤ need.memory_mb avail.memory_mb && leb_ℤ need.network_mbps avail.network_mbps)

-- `count.max(0)`.
abbrev pub rounds : ℤ → ℕ
rounds c = pos_part c

unfoldable pub sum_counts : ℤ → List TaskGroup → ℤ
sum_counts acc [] = acc
sum_counts acc (g ∷ gs) = sum_counts (add_i32 acc (pos (rounds g.count))) gs

unfoldable pub desired_count : Evaluation → StateStore → ℤ
unfolding sum_counts
desired_count ev s = elim (get_job ev.job_id s) [
  | none ↦ pos 0
  | some j ↦ sum_counts (pos 0) j.task_groups
]

unfoldable pub make_alloc :
    Evaluation → List Allocation → Job → TaskGroup → Resources → String → Allocation
make_alloc ev placed job group need node_id = record {
  id = alloc_name ev.id (length placed);
  eval_id = ev.id;
  node_id = node_id;
  job_id = job.name;
  task_group = group.name;
  desired_status = run;
  client_status = pending;
  resources = need;
}

-- The eligible nodes with their free capacity, and the plan so far.
pub record Work : Type 0 where
  pub free : List (Node × Resources)
  pub allocs : List Allocation

-- The capacity of the first node with the id, lowered by `need`; `none` if there is no such node.
unfoldable pub reserve :
    String → Resources → List (Node × Resources) → Option (List (Node × Resources))
reserve id need [] = none
reserve id need ((n, avail) ∷ free) =
    let rest = reserve id need free in
    if str_eq n.id id
    then some ((n, less avail need) ∷ free)
    else elim rest [ none ↦ none | some r ↦ some ((n, avail) ∷ r) ]

-- A weighted candidate; `free` is not read.
pub record Candidate (F : Type 0) : Type 0 where
  pub node : Node
  pub free : Resources
  pub score : F
  pub order : ℕ

module _ (fl : F64) where
  open fl use {F, total_cmp}

  -- The comparator of `sort_by`: descending score, then the original order.
  unfoldable pub compare_candidates : Candidate F → Candidate F → Ordering
  compare_candidates a b = elim (total_cmp b.score a.score) [
    | Ordering.lt ↦ Ordering.lt
    | Ordering.gt ↦ Ordering.gt
    | Ordering.eq ↦ compare a.order b.order
  ]

  -- `sort_by`, a stable sort: an entry goes ahead of the first one that is not less.
  unfoldable pub insert_sorted : Candidate F → List (Candidate F) → List (Candidate F)
  insert_sorted c [] = c ∷ []
  insert_sorted c (d ∷ ds) = elim (compare_candidates c d) [
    | Ordering.gt ↦ d ∷ insert_sorted c ds
    | Ordering.lt ↦ c ∷ d ∷ ds
    | Ordering.eq ↦ c ∷ d ∷ ds
  ]

  unfoldable pub sort_by : List (Candidate F) → List (Candidate F)
  sort_by [] = []
  sort_by (c ∷ cs) = insert_sorted c (sort_by cs)

  unfoldable pub best : List (Candidate F) → Option (Candidate F)
  best cs = elim (sort_by cs) [ [] ↦ none | c ∷ rest ↦ some c ]

module _ (lib : Matchers) where
  unfoldable pub all_satisfied : List Constraint → Node → Bool
  all_satisfied [] n = true
  all_satisfied (c ∷ cs) n = satisfied_by lib c n.attributes && all_satisfied cs n

  unfoldable pub meets_constraints : Node → TaskGroup → Bool
  meets_constraints n group = all_satisfied group.constraints n

  -- The predicate of both paths.
  unfoldable pub is_feasible : TaskGroup → Resources → Node × Resources → Bool
  is_feasible group need (n, avail) = fits avail need && meets_constraints n group

  -- `iter_mut().find(..)` of the fast path, and the decrement of what it found.
  unfoldable pub first_fit :
      TaskGroup → Resources → List (Node × Resources) → Option (Node × List (Node × Resources))
  first_fit group need [] = none
  first_fit group need ((n, avail) ∷ free) =
      let rest = first_fit group need free in
      if is_feasible group need (n, avail)
      then some (n, (n, less avail need) ∷ free)
      else elim rest [ none ↦ none | some (m, r) ↦ some (m, (n, avail) ∷ r) ]

  module _ (ev : Evaluation) (job : Job) (group : TaskGroup) where
    -- The fast path: `break` when no node fits.
    unfoldable pub place_first : ℕ → Work → Work
    place_first zero w = w
    place_first (suc k) w = elim (first_fit group (group_demand group) w.free) [
      | none ↦ w
      | some (n, free) ↦ place_first k (record {
        free = free;
        allocs = w.allocs ++ make_alloc ev w.allocs job group (group_demand group) n.id ∷ [];
      })
    ]

    module _ (fl : F64) where
      open fl use {F}

      -- The feasible nodes with their scores; `idx` is the counter of `enumerate`.
      unfoldable pub candidates : StateStore → ℕ → List (Node × Resources) → List (Candidate F)
      candidates s idx [] = []
      candidates s idx ((n, avail) ∷ free) =
          let rest = candidates s (idx + 1) free in
          if is_feasible group (group_demand group) (n, avail)
          then record {
            node = n;
            free = avail;
            score = score_node lib fl n avail (group_demand group) group (bonus_for fl group n s);
            order = idx;
          }
            ∷ rest
          else rest

      -- The scoring path: `break` when nothing is feasible, `continue` when the node is not found.
      unfoldable pub place_best : StateStore → ℕ → Work → Work
      place_best s zero w = w
      place_best s (suc k) w = elim (best fl (candidates s 0 w.free)) [
        | none ↦ w
        | some c ↦ elim (reserve c.node.id (group_demand group) w.free) [
          | none ↦ place_best s k w
          | some free ↦ place_best s k (record {
            free = free;
            allocs =
                w.allocs ++ make_alloc ev w.allocs job group (group_demand group) c.node.id ∷ [];
          })
        ]
      ]

  module _ (fl : F64) where
    abbrev pub has_preferences : TaskGroup → Bool
    has_preferences g = elim g.affinities [
      | [] ↦ elim g.spreads [ [] ↦ false | s ∷ ss ↦ true ]
      | a ∷ rest ↦ true
    ]

    unfoldable pub place_group : Evaluation → Job → StateStore → TaskGroup → Work → Work
    place_group ev job s g w = elim (has_preferences g) [
      | false ↦ place_first ev job g (rounds g.count) w
      | true ↦ place_best ev job g fl s (rounds g.count) w
    ]

    unfoldable pub place_groups : Evaluation → Job → StateStore → List TaskGroup → Work → Work
    place_groups ev job s [] w = w
    place_groups ev job s (g ∷ gs) w = place_groups ev job s gs (place_group ev job s g w)

    unfoldable pub start : StateStore → Work
    start s = record {
      free = map (λ n. (n, free_capacity n s)) (filter node_eligible (list_nodes s));
      allocs = [];
    }

    unfoldable pub process_eval : Evaluation → StateStore → Plan
    process_eval ev s = elim (get_job ev.job_id s) [
      | none ↦ record { allocs = [] }
      | some job ↦ record { allocs = (place_groups ev job s job.task_groups (start s)).allocs }
    ]
