-- ===== src/Scheduler/Subscribed.antt =====
-- process_eval of scheduler.rs: the resources of a node against what lives on it and what the
-- plan adds.
use nomad_rs.Base.{
  ℕ, ◌≡◌, refl, sym, ◌∙◌, subst, Option, none, some, List, [], All, All-map, All-filter, All-zip,
  All-map_of, map-All, filter_comm, ◌⊎◌, inl, inr, str_eq, map, filter,
}
use nomad_rs.Base.Int.{ℤ, pos, ◌+ℤ◌, ◌≤ℤ◌, InI32, int_laws}
use nomad_rs.Base.HashMap.{values}
use nomad_rs.Jobspec.{Resources, TaskGroup, Job}
use nomad_rs.Alloc.{Allocation}
use nomad_rs.Node.{Node}
use nomad_rs.Constraint.{Matchers}
use nomad_rs.Eval.{Evaluation}
use nomad_rs.State.{StateStore, get_job, list_nodes, list_allocs, allocs_by_node}
use nomad_rs.State.Valid.{IsValid}
use nomad_rs.Scheduler.{Work, Plan, node_eligible, start, place_groups, process_eval}
use nomad_rs.Scheduler.Float.{F64}
use nomad_rs.Scheduler.Score.{free_capacity, is_live}
use nomad_rs.Scheduler.Lowering.{Lowered-nodes}
use nomad_rs.Scheduler.Steps.{place, Run, done, more, Runs, finish, group, place_groups-Runs}
use nomad_rs.Scheduler.Capacity.{Dimension, of, load, placed, Demands, Holds, Books, Runs-Books}
use nomad_rs.Scheduler.Exact.{
  map_first, free_from_exact, live_allocs, total-load, load-unplaced, start-DistinctIds,
}

-- `c` was free, `l` live, `p` planned, `e` is left and `r` is all.
within_of :
    (c l p e r : ℤ)
    → e +ℤ p ≡ c
    → c +ℤ l ≡ r
    → pos 0 ≤ℤ c
    → (p ≡ pos 0) ⊎ (pos 0 ≤ℤ e)
    → l +ℤ p ≤ℤ r
within_of c l p e r b x f (inl none_planned) = rw none_planned (rw (← x) (omega int_laws))
within_of c l p e r b x f (inr left) = rw (← x) (rw (← b) (omega int_laws))

-- The store does not give out more than there is of a resource: its nodes' amounts are `i32`s, no
-- live allocation has a negative demand, and on every node the live demands fit.
pub record NotOver (d : Dimension) (s : StateStore) : Type 0 where
  pub ranged : All (λ n. InI32 (of d n.resources)) (list_nodes s)
  pub demands : All (λ a. pos 0 ≤ℤ of d a.resources) (live_allocs s)
  pub within : All (λ n. load d n.id (live_allocs s) ≤ℤ of d n.resources) (list_nodes s)

module _ (d : Dimension) (s : StateStore) where
  -- What `free_capacity` computes.
  abbrev Exact : Node → Type 0
  Exact n =
      (of d (free_capacity n s) +ℤ load d n.id (live_allocs s) ≡ of d n.resources)
      × InI32 (of d (free_capacity n s))
      × (pos 0 ≤ℤ of d (free_capacity n s))

  free_capacity-Exact :
      (n : Node)
      → InI32 (of d n.resources)
      → All (λ a. pos 0 ≤ℤ of d a.resources) (live_allocs s)
      → load d n.id (live_allocs s) ≤ℤ of d n.resources
      → Exact n
  unfolding free_capacity live_allocs list_allocs allocs_by_node
  free_capacity-Exact n i p l = rw (← total-load d n.id (values s.allocs)) (
      free_from_exact d n.resources _ i
        (rw filter_comm (
          All-filter _ (λ a. str_eq a.node_id n.id)
            (filter (λ a. is_live a.client_status) (values s.allocs)) p))
        (rw (total-load d n.id (values s.allocs)) l))

  -- The plan and the live allocations together stay within the node's resources.
  abbrev pub Within : List Allocation → Node → Type 0
  Within allocs n = load d n.id (live_allocs s) +ℤ load d n.id allocs ≤ℤ of d n.resources

  Holds-Within :
      (lib : Matchers) (allocs : List Allocation) (e : Node × Resources)
      → Holds lib d (λ n. free_capacity n s) allocs e
      → Exact e.0
      → Within allocs e.0
  Holds-Within lib allocs e h x =
      within_of (of d (free_capacity e.0 s)) (load d e.0.id (live_allocs s)) (load d e.0.id allocs)
        (of d e.1) (of d e.0.resources) h.balance x.0 x.2 (covered_of h.covered)
    where
      covered_of :
          (placed e.0.id allocs ≡ 0) ⊎ (pos 0 ≤ℤ of d e.1)
          → (load d e.0.id allocs ≡ pos 0) ⊎ (pos 0 ≤ℤ of d e.1)
      covered_of (inl none_placed) = inl (load-unplaced d e.0.id allocs none_placed)
      covered_of (inr left) = inr left

  module _ (lib : Matchers) (ev : Evaluation) (job : Job) where
    Holds-empty :
        (n : Node) → Exact n → Holds lib d (λ m. free_capacity m s) [] (n, free_capacity n s)
    unfolding load placed
    Holds-empty n x = record { balance = omega int_laws; ranged = x.1; covered = inl refl }

    Run-nodes :
        {g : TaskGroup} {k : ℕ} {w v : Work}
        → Run lib ev job g w k v
        → map (λ e. e.0) v.free ≡ map (λ e. e.0) w.free
    Run-nodes (done k) = refl
    Run-nodes {g} (more k (place n free l) r) = Run-nodes r ∙ Lowered-nodes lib g l

    Runs-nodes :
        {gs : List TaskGroup} {w v : Work}
        → Runs lib ev job gs w v
        → map (λ e. e.0) v.free ≡ map (λ e. e.0) w.free
    Runs-nodes finish = refl
    Runs-nodes (group g r rs) = Runs-nodes rs ∙ Run-nodes r

    module _ (fl : F64) where
      start-Books :
          IsValid s
          → All Exact (filter node_eligible (list_nodes s))
          → Books lib d (λ n. free_capacity n s) ev job (start lib fl s)
      unfolding start list_nodes
      start-Books v x = record {
        distinct = start-DistinctIds (λ n. free_capacity n s) s.nodes v.nodes.0 v.nodes.1;
        holds =
            map-All (λ n. (n, free_capacity n s)) (Holds lib d (λ n. free_capacity n s) []) _
              (All-map Exact _ _ (λ n e. Holds-empty n e) x);
      }

      map-start : map (λ e. e.0) (start lib fl s).free ≡ filter node_eligible (list_nodes s)
      unfolding start
      map-start = map_first (λ n. free_capacity n s) _

      -- On every eligible node, the live allocations and those of the plan together stay within
      -- the node's resources.
      groups-Within :
          IsValid s
          → NotOver d s
          → All (Demands d) job.task_groups
          → All
              (Within (place_groups lib fl ev job s job.task_groups (start lib fl s)).allocs)
              (filter node_eligible (list_nodes s))
      groups-Within v o p =
          let exact : All Exact (filter node_eligible (list_nodes s)) =
            All-filter Exact node_eligible (list_nodes s) (
              All-zip _ _ Exact (list_nodes s) (λ n i l. free_capacity-Exact n i o.demands l)
                o.ranged o.within) in
          let w = place_groups lib fl ev job s job.task_groups (start lib fl s) in
          let books0 = start-Books v exact in
          let runs =
            place_groups-Runs lib ev job fl s job.task_groups (start lib fl s) books0.distinct in
          let books = Runs-Books lib d (λ n. free_capacity n s) ev job p runs books0 in
          let same : map (λ e. e.0) w.free ≡ filter node_eligible (list_nodes s) =
            Runs-nodes runs ∙ map-start in
          subst (All (Within w.allocs)) same (
            map-All (λ e. e.0) (Within w.allocs) w.free
              (All-zip _ (λ e. Exact e.0) (λ e. Within w.allocs e.0) w.free
                (λ e h x. Holds-Within lib w.allocs e h x) books.holds
                (All-map_of (λ e. e.0) Exact w.free (subst (All Exact) (sym same) exact))))

-- The plan of any evaluation on a valid store: in each dimension in which the store is not
-- oversubscribed and the job's groups have no negative demand, on every eligible node the live
-- allocations and those of the plan together stay within the node's resources. This holds on the
-- first-fit path and on the scoring path, for any constraint matchers and any scores.
pub process_eval-Within :
    (lib : Matchers) (fl : F64) (d : Dimension) (ev : Evaluation) (s : StateStore)
    → IsValid s
    → NotOver d s
    → ((j : Job) → get_job ev.job_id s ≡ some j → All (Demands d) j.task_groups)
    → All (Within d s (process_eval lib fl ev s).allocs) (filter node_eligible (list_nodes s))
unfolding process_eval
process_eval-Within lib fl d ev s v o p = by_job (get_job ev.job_id s) p
  where
    nothing_planned : All (Within d s []) (list_nodes s)
    nothing_planned =
        All-map (λ n. load d n.id (live_allocs s) ≤ℤ of d n.resources) (Within d s [])
          (list_nodes s) (λ n l. unfold load in omega int_laws) o.within

    by_job :
        (r : Option Job)
        → ((j : Job) → r ≡ some j → All (Demands d) j.task_groups)
        → All
            (Within d s
              (elim r as (λ _. Plan) [
                | none ↦ record { allocs = [] }
                | some job ↦ record {
                  allocs = (place_groups lib fl ev job s job.task_groups (start lib fl s)).allocs;
                }
              ]).allocs)
            (filter node_eligible (list_nodes s))
    by_job none q = All-filter (Within d s []) node_eligible (list_nodes s) nothing_planned
    by_job (some job) q = groups-Within d s lib ev job fl v o (q job refl)
