-- ===== src/Scheduler/Placed.antt =====
-- process_eval of scheduler.rs: what a plan holds.
use nomad_rs.Base.{
  ℕ, suc, ◌≤◌, ◌<◌, Bool, true, ◌≡◌, ◌≢◌, refl, sym, ◌∙◌, String, some, List, [], ◌∷◌, All, All-map,
  All_of_In, map-All, In, first, further, length, arith, filter, Bool-cases, inl, inr, alloc_name,
  alloc_name-injective,
}
use nomad_rs.Constraint.{Matchers}
use nomad_rs.Jobspec.{TaskGroup, Job}
use nomad_rs.Alloc.{Allocation, pending, run}
use nomad_rs.Eval.{Evaluation}
use nomad_rs.Node.{Node}
use nomad_rs.State.{StateStore, get_job, list_nodes}
use nomad_rs.State.Valid.{IsValid}
use nomad_rs.Scheduler.{
  node_eligible, meets_constraints, make_alloc, start, place_groups, process_eval,
}
use nomad_rs.Scheduler.Float.{F64}
use nomad_rs.Scheduler.Score.{group_demand, free_capacity}
use nomad_rs.Scheduler.Steps.{Runs, place_groups-Runs}
use nomad_rs.Scheduler.Exact.{start-DistinctIds}
use nomad_rs.Scheduler.Placements.{Runs-Kept, Named, asked, Runs-Named}

In-filter {ℓ} :
    {A : Type ℓ} (p : A → Bool) (xs : List A) → All (λ x. In x xs × (p x ≡ true)) (filter p xs)
In-filter p [] = tt
In-filter p (x ∷ xs) = elim (Bool-cases (p x)) [
  | inl e ↦ rw e ((first xs, e), All-map _ _ _ (λ y h. (further x h.0, h.1)) (In-filter p xs))
  | inr e ↦ rw e (All-map _ _ _ (λ y h. (further x h.0, h.1)) (In-filter p xs))
]

-- The allocation stands on an eligible node of the store that meets the constraints of one of the
-- job's groups, with that group's demand, and is pending.
pub record Placed (lib : Matchers) (ev : Evaluation) (s : StateStore) (job : Job) (a : Allocation)
    : Type 0 where
  pub node : Node
  pub group : TaskGroup
  pub stands : In node (list_nodes s)
  pub eligible : node_eligible node ≡ true
  pub asked_for : In group job.task_groups
  pub meets : meets_constraints lib node group ≡ true
  pub made : a ≡ record a {
    eval_id = ev.id;
    node_id = node.id;
    job_id = job.name;
    task_group = group.name;
    desired_status = run;
    client_status = pending;
    resources = group_demand group;
  }

module _ (lib : Matchers) (fl : F64) (ev : Evaluation) (s : StateStore) (job : Job) where
  makes-Placed :
      (g : TaskGroup) (xs : List Allocation) (n : Node)
      → In g job.task_groups
      → In n (list_nodes s) × (node_eligible n ≡ true)
      → meets_constraints lib n g ≡ true
      → Placed lib ev s job (make_alloc ev xs job g (group_demand g) n.id)
  unfolding make_alloc
  makes-Placed g xs n i q m = record {
    node = n;
    group = g;
    stands = q.0;
    eligible = q.1;
    asked_for = i;
    meets = m;
    made = refl;
  }

  runs :
      IsValid s
      → Runs lib ev job job.task_groups
          (start lib fl s)
          (place_groups lib fl ev job s job.task_groups (start lib fl s))
  unfolding start list_nodes
  runs v =
      place_groups-Runs lib ev job fl s job.task_groups (start lib fl s)
        (start-DistinctIds (λ n. free_capacity n s) s.nodes v.nodes.0 v.nodes.1)

  groups-Placed :
      IsValid s
      → All
          (Placed lib ev s job)
          (place_groups lib fl ev job s job.task_groups (start lib fl s)).allocs
  unfolding start
  groups-Placed v =
      (Runs-Kept lib ev job (Placed lib ev s job)
        (λ n. In n (list_nodes s) × (node_eligible n ≡ true))
        (All_of_In _ job.task_groups (λ g i xs n q m. makes-Placed g xs n i q m)) (runs v)
        (record {
          nodes =
              map-All (λ n. (n, free_capacity n s)) _ _ (In-filter node_eligible (list_nodes s));
          allocs = tt;
        })).allocs

  plan_of :
      get_job ev.job_id s ≡ some job
      → (process_eval lib fl ev s).allocs
        ≡ (place_groups lib fl ev job s job.task_groups (start lib fl s)).allocs
  unfolding process_eval
  plan_of e = rw (e, process_eval) refl

-- On a valid store that holds the evaluation's job, each allocation of the plan stands on an
-- eligible node of the store that meets every constraint of one of the job's groups; it belongs to
-- the evaluation, the job and that group, has the group's demand, and is pending and wanted to run.
pub process_eval-Placed :
    (lib : Matchers) (fl : F64) (ev : Evaluation) (s : StateStore) (job : Job)
    → IsValid s
    → get_job ev.job_id s ≡ some job
    → All (Placed lib ev s job) (process_eval lib fl ev s).allocs
process_eval-Placed lib fl ev s job v e =
    rw (plan_of lib fl ev s job e) (groups-Placed lib fl ev s job v)

-- No two allocations share an id.
abbrev pub DistinctAllocs : List Allocation → Type 0
DistinctAllocs [] = Unit
DistinctAllocs (a ∷ rest) = All (λ b. a.id ≢ b.id) rest × DistinctAllocs rest

Named-later :
    (id : String) (a : Allocation) (j k : ℕ) (xs : List Allocation)
    → j < k
    → a.id ≡ alloc_name id j
    → Named id k xs
    → All (λ b. a.id ≢ b.id) xs
Named-later id a j k [] l e n = tt
Named-later id a j k (b ∷ rest) l e n = (
  λ same. absurd (omega (arith, l, alloc_name-injective id j k (sym e ∙ (same ∙ n.0)))),
  Named-later id a j (suc k) rest (omega (arith, l)) e n.1,
)

Named-DistinctAllocs :
    (id : String) (k : ℕ) (xs : List Allocation) → Named id k xs → DistinctAllocs xs
Named-DistinctAllocs id k [] n = tt
Named-DistinctAllocs id k (a ∷ rest) n = (
  Named-later id a k (suc k) rest (omega arith) n.0 n.1,
  Named-DistinctAllocs id (suc k) rest n.1,
)

-- On a valid store that holds the evaluation's job, the i-th allocation of the plan is named
-- after the evaluation and i, so no two share an id, and there are at most as many as the groups'
-- counts add up to, a negative count taken as 0.
pub process_eval-Named :
    (lib : Matchers) (fl : F64) (ev : Evaluation) (s : StateStore) (job : Job)
    → IsValid s
    → get_job ev.job_id s ≡ some job
    → Named ev.id 0 (process_eval lib fl ev s).allocs
      × DistinctAllocs (process_eval lib fl ev s).allocs
      × (length (process_eval lib fl ev s).allocs ≤ asked job.task_groups)
process_eval-Named lib fl ev s job v e =
    let (named, bound) = Runs-Named lib ev job (runs lib fl ev s job v) start_named in
    rw (plan_of lib fl ev s job e)
      (named, Named-DistinctAllocs ev.id 0 _ named, omega (arith, bound, start_length))
  where
    start_named : Named ev.id 0 (start lib fl s).allocs
    start_named = unfold start in tt

    start_length : length (start lib fl s).allocs ≡ 0
    start_length = unfold start in refl
