-- ===== src/State/Valid.antt =====
-- The store's well-formedness: each table has one entry for a key, files each item under its own
-- key, and holds only items that pass their validation.
use nomad_rs.Base.{String, ◌≡◌, refl, [], ◌∷◌, All, ◌⊎◌, inl, inr, Option-cases}
use nomad_rs.Base.HashMap.{
  HashMap, Distinct, get, insert, remove, values, insert-Distinct, remove-Distinct, insert-All,
  remove-All,
}
use nomad_rs.Error.{Error, Result, ok, err, each}
use nomad_rs.Jobspec.{Job, validate_job}
use nomad_rs.Alloc.{Allocation, validate_alloc}
use nomad_rs.Eval.{Evaluation, validate_eval}
use nomad_rs.Node.{Node, validate_node}
use nomad_rs.State.{
  StateStore, new, upsert_job, delete_job, upsert_node, upsert_alloc, upsert_eval, when_valid,
  check_all,
}

abbrev pub IsFiled : {V : Type 0} → (V → String) → (V → Result (Unit {0})) → HashMap V → Type 0
IsFiled key check m = Distinct m × All (λ e. (e.0 ≡ key e.1) × (check e.1 ≡ ok tt)) m

pub record IsValid (s : StateStore) : Type 0 where
  pub jobs : IsFiled (λ j. j.name) validate_job s.jobs
  pub nodes : IsFiled (λ n. n.id) validate_node s.nodes
  pub allocs : IsFiled (λ a. a.id) validate_alloc s.allocs
  pub evals : IsFiled (λ e. e.id) validate_eval s.evals

module _ {V : Type 0} (key : V → String) (check : V → Result (Unit {0})) where
  insert-IsFiled :
      (v : V) (m : HashMap V)
      → check v ≡ ok tt
      → IsFiled key check m
      → IsFiled key check (insert (key v) v m)
  insert-IsFiled v m c h = (insert-Distinct _ v m h.0, insert-All _ _ v m (refl, c) h.1)

  remove-IsFiled :
      (k : String) (m : HashMap V) → IsFiled key check m → IsFiled key check (remove k m)
  remove-IsFiled k m h = (remove-Distinct k m h.0, remove-All _ k m h.1)

  -- The loop of `load` passes.
  each-IsFiled :
      (m : HashMap V)
      → All (λ e. (e.0 ≡ key e.1) × (check e.1 ≡ ok tt)) m
      → each check (values m) ≡ ok tt
  unfolding each
  each-IsFiled [] h = refl
  each-IsFiled ((k, v) ∷ m) h = rw (h.0.1) (each-IsFiled m h.1)

Result-cases : (r : Result (Unit {0})) → (r ≡ ok tt) ⊎ ((e : Error) × (r ≡ err e))
Result-cases (ok tt) = inl refl
Result-cases (err e) = inr (e, refl)

pub new-IsValid : IsValid new
unfolding new
new-IsValid = record { jobs = (tt, tt); nodes = (tt, tt); allocs = (tt, tt); evals = (tt, tt) }

when_valid-IsValid :
    (r : Result (Unit {0})) (next s : StateStore)
    → IsValid s
    → (r ≡ ok tt → IsValid next)
    → IsValid (when_valid r next s).0
when_valid-IsValid (ok tt) next s h k = k refl
when_valid-IsValid (err e) next s h k = h

module _ {s : StateStore} (h : IsValid s) where
  pub upsert_job-IsValid : (j : Job) → IsValid (upsert_job j s).0
  unfolding upsert_job
  upsert_job-IsValid j = when_valid-IsValid _ _ s h λ c. record {
    jobs = insert-IsFiled (λ x. x.name) validate_job j s.jobs c h.jobs;
    nodes = h.nodes;
    allocs = h.allocs;
    evals = h.evals;
  }

  pub delete_job-IsValid : (name : String) → IsValid (delete_job name s).0
  unfolding delete_job
  delete_job-IsValid name = elim (Option-cases (get name s.jobs)) [
    | inl e ↦ rw (e, delete_job) h
    | inr (j, e) ↦
        rw (e, delete_job)
          (record {
            jobs = remove-IsFiled (λ x. x.name) validate_job name s.jobs h.jobs;
            nodes = h.nodes;
            allocs = h.allocs;
            evals = h.evals;
          })
  ]

  pub upsert_node-IsValid : (n : Node) → IsValid (upsert_node n s).0
  unfolding upsert_node
  upsert_node-IsValid n = when_valid-IsValid _ _ s h λ c. record {
    jobs = h.jobs;
    nodes = insert-IsFiled (λ x. x.id) validate_node n s.nodes c h.nodes;
    allocs = h.allocs;
    evals = h.evals;
  }

  pub upsert_alloc-IsValid : (a : Allocation) → IsValid (upsert_alloc a s).0
  unfolding upsert_alloc
  upsert_alloc-IsValid a = when_valid-IsValid _ _ s h λ c. record {
    jobs = h.jobs;
    nodes = h.nodes;
    allocs = insert-IsFiled (λ x. x.id) validate_alloc a s.allocs c h.allocs;
    evals = h.evals;
  }

  pub upsert_eval-IsValid : (e : Evaluation) → IsValid (upsert_eval e s).0
  unfolding upsert_eval
  upsert_eval-IsValid e = when_valid-IsValid _ _ s h λ c. record {
    jobs = h.jobs;
    nodes = h.nodes;
    allocs = h.allocs;
    evals = insert-IsFiled (λ x. x.id) validate_eval e s.evals c h.evals;
  }

  -- The four loops of `load` accept a valid store.
  pub check_all-IsValid : check_all s ≡ ok tt
  unfolding check_all
  check_all-IsValid = rw (each-IsFiled (λ x. x.name) validate_job s.jobs h.jobs.1) (
      rw (each-IsFiled (λ x. x.id) validate_node s.nodes h.nodes.1) (
        rw (each-IsFiled (λ x. x.id) validate_alloc s.allocs h.allocs.1)
          (each-IsFiled (λ x. x.id) validate_eval s.evals h.evals.1)))
