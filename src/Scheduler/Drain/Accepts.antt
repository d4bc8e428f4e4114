-- ===== src/Scheduler/Drain/Accepts.antt =====
-- apply_plan and process_and_apply of scheduler.rs on a valid store.
use nomad_rs.Base.{
  false, ◌≡◌, ◌≢◌, refl, sym, ap, subst, ◌∙◌, Option-cases, inl, inr, String, Option, none, some,
  List, [], ◌∷◌, All, All-map, All-filter, map-All, length, arith, filter, alloc_name-ne-empty,
  is_empty, str_eq_ne,
}
use nomad_rs.Base.HashMap.{get-All, values, insert, get-insert_self, get-insert_ne}
use nomad_rs.Constraint.{Matchers}
use nomad_rs.Error.{Result, ok, err, each}
use nomad_rs.Jobspec.{TaskGroup, Job, validate_job, validate_group}
use nomad_rs.Alloc.{Allocation, validate_alloc}
use nomad_rs.Eval.{Evaluation}
use nomad_rs.Node.{Node, validate_node}
use nomad_rs.Fsm.{Fsm, apply, upsert_alloc}
use nomad_rs.Scheduler.Score.{group_demand}
use nomad_rs.State
use nomad_rs.State.{StateStore, get_job, get_alloc, list_nodes}
use nomad_rs.Scheduler.Placed.{DistinctAllocs, process_eval-Named}
use nomad_rs.State.Valid.{IsValid}
use nomad_rs.Fsm.Keeps.{apply-IsValid}
use nomad_rs.Scheduler.{Plan, make_alloc, node_eligible, start, place_groups, process_eval}
use nomad_rs.Scheduler.Float.{F64}
use nomad_rs.Scheduler.Score.{free_capacity}
use nomad_rs.Scheduler.Steps.{place_groups-Runs}
use nomad_rs.Scheduler.Exact.{start-DistinctIds}
use nomad_rs.Scheduler.Placements.{Runs-Kept}
use nomad_rs.Scheduler.Drain.{apply_allocs, apply_plan, process_and_apply}

name_of_valid_job : (j : Job) → validate_job j ≡ ok tt → is_empty j.name ≡ false
unfolding validate_job
name_of_valid_job j h = ground arith

groups_of_valid_job : (j : Job) → validate_job j ≡ ok tt → each validate_group j.task_groups ≡ ok tt
unfolding validate_job
groups_of_valid_job j h = ground arith

each-All :
    {A : Type 0} (f : A → Result (Unit {0})) (xs : List A)
    → each f xs ≡ ok tt
    → All (λ x. f x ≡ ok tt) xs
unfolding each
each-All f [] h = tt
each-All f (x ∷ xs) h = ground (arith, each-All f xs)

name_of_valid_group : (g : TaskGroup) → validate_group g ≡ ok tt → is_empty g.name ≡ false
unfolding validate_group
name_of_valid_group g h = ground arith

id_of_valid_node : (n : Node) → validate_node n ≡ ok tt → is_empty n.id ≡ false
unfolding validate_node
id_of_valid_node n h = ground arith

-- An allocation for a valid node, job and group is valid.
make_alloc_valid :
    (ev : Evaluation) (xs : List Allocation) (j : Job) (g : TaskGroup) (n : Node)
    → is_empty j.name ≡ false
    → is_empty g.name ≡ false
    → is_empty n.id ≡ false
    → validate_alloc (make_alloc ev xs j g (group_demand g) n.id) ≡ ok tt
unfolding make_alloc validate_alloc
make_alloc_valid ev xs j g n a b c =
    rw (str_eq_ne _ _ (alloc_name-ne-empty ev.id (length xs))) (rw c (rw a (rw b refl)))

abbrev pub Valid : Allocation → Type 0
Valid a = validate_alloc a ≡ ok tt

module _ (lib : Matchers) (fl : F64) (ev : Evaluation) (s : StateStore) (v : IsValid s) where
  job_valid : (j : Job) → get_job ev.job_id s ≡ some j → validate_job j ≡ ok tt
  unfolding get_job
  job_valid j e =
      get-All (λ x. validate_job x ≡ ok tt) ev.job_id j s.jobs
        (All-map _ _ s.jobs (λ x h. h.1) v.jobs.1) e

  eligible_named : All (λ n. is_empty n.id ≡ false) (filter node_eligible (list_nodes s))
  unfolding list_nodes
  eligible_named = All-filter _ node_eligible (values s.nodes) (
      map-All (λ (e : String × Node). e.1) (λ n. is_empty n.id ≡ false) s.nodes
        (All-map _ _ s.nodes (λ e h. id_of_valid_node e.1 h.1) v.nodes.1))

  groups-Valid :
      (j : Job)
      → validate_job j ≡ ok tt
      → All Valid (place_groups lib fl ev j s j.task_groups (start lib fl s)).allocs
  unfolding start list_nodes
  groups-Valid j h =
      (Runs-Kept lib ev j Valid (λ n. is_empty n.id ≡ false)
        (All-map _ _ j.task_groups
          (λ g k xs n q m.
            make_alloc_valid ev xs j g n (name_of_valid_job j h) (name_of_valid_group g k) q)
          (each-All validate_group j.task_groups (groups_of_valid_job j h)))
        (place_groups-Runs lib ev j fl s j.task_groups (start lib fl s)
          (start-DistinctIds (λ n. free_capacity n s) s.nodes v.nodes.0 v.nodes.1))
        (record {
          nodes =
              map-All (λ n. (n, free_capacity n s)) (λ e. is_empty e.0.id ≡ false) _ eligible_named;
          allocs = tt;
        })).allocs

  pub plan-Valid : All Valid (process_eval lib fl ev s).allocs
  unfolding process_eval
  plan-Valid = by_job (get_job ev.job_id s) (λ j e. groups-Valid j (job_valid j e))
    where
      by_job :
          (r : Option Job)
          → ((j : Job)
              → r ≡ some j
              → All Valid (place_groups lib fl ev j s j.task_groups (start lib fl s)).allocs)
          → All Valid
              (elim r as (λ _. Plan) [
                | none ↦ record { allocs = [] }
                | some job ↦ record {
                  allocs = (place_groups lib fl ev job s job.task_groups (start lib fl s)).allocs;
                }
              ]).allocs
      by_job none q = tt
      by_job (some j) q = q j refl

apply-upsert_alloc :
    (a : Allocation) (f : Fsm)
    → Valid a
    → apply (upsert_alloc a) f
      ≡ (record f { state = record f.state { allocs = insert a.id a f.state.allocs } }, ok tt)
unfolding apply State.upsert_alloc
apply-upsert_alloc a f h = rw (h, State.upsert_alloc) refl

apply_allocs-Valid :
    (a : Allocation) (rest : List Allocation) (f : Fsm)
    → Valid a
    → apply_allocs (a ∷ rest) f
      ≡ apply_allocs rest
          (record f { state = record f.state { allocs = insert a.id a f.state.allocs } })
unfolding apply_allocs
apply_allocs-Valid a rest f h =
    ap
      (λ (r : Fsm × Result (Unit {0})). elim r.1 as (λ _. Fsm × Result (Unit {0})) [
        | ok _ ↦ apply_allocs rest r.0
        | err e ↦ (r.0, err e)
      ])
      (apply-upsert_alloc a f h)

-- What is left of a store when the allocations were committed: each is stored under its id, every
-- other allocation is as it was, and so are the other tables.
pub record Commits (xs : List Allocation) (before after : StateStore) : Type 0 where
  pub stored : All (λ a. get_alloc a.id after ≡ some a) xs
  pub kept : (id : String) → All (λ a. a.id ≢ id) xs → get_alloc id after ≡ get_alloc id before
  pub jobs : after.jobs ≡ before.jobs
  pub nodes : after.nodes ≡ before.nodes
  pub evals : after.evals ≡ before.evals

-- The loop ended without an error, and left a valid store.
record Applies (xs : List Allocation) (f : Fsm) (r : Fsm × Result (Unit {0})) : Type 0 where
  returned : r.1 ≡ ok tt
  valid : IsValid r.0.state
  commits : Commits xs f.state r.0.state

apply_allocs-Applies :
    (xs : List Allocation) (f : Fsm)
    → All Valid xs
    → DistinctAllocs xs
    → IsValid f.state
    → Applies xs f (apply_allocs xs f)
unfolding apply_allocs
apply_allocs-Applies [] f h d v = record {
  returned = refl;
  valid = v;
  commits = record { stored = tt; kept = λ id n. refl; jobs = refl; nodes = refl; evals = refl };
}
apply_allocs-Applies (a ∷ rest) f h d v =
    subst (Applies (a ∷ rest) f) (sym (apply_allocs-Valid a rest f h.0))
      (extended _ (apply_allocs-Applies rest next h.1 d.1 next-IsValid))
  where
    next : Fsm
    next = record f { state = record f.state { allocs = insert a.id a f.state.allocs } }

    next-IsValid : IsValid next.state
    next-IsValid =
        subst (λ (r : Fsm × Result (Unit {0})). IsValid r.0.state) (apply-upsert_alloc a f h.0)
          (apply-IsValid (upsert_alloc a) f v)

    extended : (r : Fsm × Result (Unit {0})) → Applies rest next r → Applies (a ∷ rest) f r
    extended r again = record {
      returned = again.returned;
      valid = again.valid;
      commits = record {
        stored = (
          unfold get_alloc in
              again.commits.kept a.id (All-map _ _ rest (λ b n e. n (sym e)) d.0)
              ∙ get-insert_self a.id a f.state.allocs,
          again.commits.stored,
        );
        kept = λ id n.
            unfold get_alloc in
            again.commits.kept id n.1 ∙ get-insert_ne a.id id a f.state.allocs n.0;
        jobs = again.commits.jobs;
        nodes = again.commits.nodes;
        evals = again.commits.evals;
      };
    }

plan-DistinctAllocs :
    (lib : Matchers) (fl : F64) (ev : Evaluation) (s : StateStore)
    → IsValid s
    → DistinctAllocs (process_eval lib fl ev s).allocs
plan-DistinctAllocs lib fl ev s v = elim (Option-cases (get_job ev.job_id s)) [
  | inl e ↦ unfold process_eval in rw (e, process_eval) tt
  | inr (j, e) ↦ (process_eval-Named lib fl ev s j v e).1
]

-- On a valid store process_and_apply returns the plan of the evaluation without an error: each of
-- the plan's allocations is then stored under its id, every other allocation, and every job, node
-- and evaluation, is as it was, and the store stays valid.
pub process_and_apply-ok :
    (lib : Matchers) (fl : F64) (ev : Evaluation) (f : Fsm)
    → IsValid f.state
    → let r = process_and_apply lib fl ev f in
      (r.1 ≡ ok (process_eval lib fl ev f.state))
      × Commits (process_eval lib fl ev f.state).allocs f.state r.0.state
      × IsValid r.0.state
unfolding process_and_apply apply_plan
process_and_apply-ok lib fl ev f v = by_result (apply_allocs plan.allocs f).1 (
    apply_allocs-Applies plan.allocs f (plan-Valid lib fl ev f.state v)
      (plan-DistinctAllocs lib fl ev f.state v) v)
  where
    plan : Plan
    plan = process_eval lib fl ev f.state

    after : Fsm
    after = (apply_allocs plan.allocs f).0

    by_result :
        (r : Result (Unit {0}))
        → Applies plan.allocs f (after, r)
        → let x : Fsm × Result Plan = elim r [ ok _ ↦ (after, ok plan) | err e ↦ (after, err e) ] in
          (x.1 ≡ ok plan) × Commits plan.allocs f.state x.0.state × IsValid x.0.state
    by_result (ok u) g = (refl, g.commits, g.valid)
    by_result (err x) g = absurd (ground (arith, g.returned))
