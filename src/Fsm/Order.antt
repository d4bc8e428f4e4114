-- ===== src/Fsm/Order.antt =====
-- fsm.rs: commands on different entries of the four maps.
use mathlib.Core.Path.{fun_ext}
use nomad_rs.Base.{String, ◌≡◌, ◌≢◌, refl, sym, ap, ◌∙◌, Option, none, some, arith, String_discrete}
use nomad_rs.Error.{Result, ok, err, validation, job_not_found}
use nomad_rs.Jobspec.{Job, validate_job}
use nomad_rs.Alloc.{validate_alloc}
use nomad_rs.Eval.{validate_eval}
use nomad_rs.Node.{validate_node}
use nomad_rs.State
use nomad_rs.State.{StateStore, when_valid}
use nomad_rs.State.Valid.{IsValid}
use nomad_rs.Fsm.Keeps.{apply_rejected}
use nomad_rs.Fsm.Refines.{View, view, update, spec, view-apply}
use nomad_rs.Fsm.{
  Fsm, Command, apply, upsert_job, deregister_job, upsert_node, upsert_alloc, upsert_eval,
}

pub data Table : Type 0 where
  jobs nodes allocs evals : Table

-- The entry that a command is about.
abbrev pub entry : Command → Table × String
entry (upsert_job j) = (jobs, j.name)
entry (deregister_job name) = (jobs, name)
entry (upsert_node n) = (nodes, n.id)
entry (upsert_alloc a) = (allocs, a.id)
entry (upsert_eval e) = (evals, e.id)

abbrev pub found : String → Option Job → Result (Unit {0})
found name none = err (validation (job_not_found name))
found name (some j) = ok tt

-- What a command returns, on the four maps.
unfoldable pub outcome : Command → View → Result (Unit {0})
outcome (upsert_job j) v = validate_job j
outcome (deregister_job name) v = found name (v.jobs name)
outcome (upsert_node n) v = validate_node n
outcome (upsert_alloc a) v = validate_alloc a
outcome (upsert_eval e) v = validate_eval e

when_valid-outcome : (r : Result (Unit {0})) (next s : StateStore) → (when_valid r next s).1 ≡ r
when_valid-outcome (ok u) next s = refl
when_valid-outcome (err x) next s = refl

pub apply-outcome : (c : Command) (f : Fsm) → (apply c f).1 ≡ outcome c (view f)
unfolding apply outcome view State.get_job State.upsert_job State.delete_job State.upsert_node
    State.upsert_alloc State.upsert_eval
apply-outcome (upsert_job j) f = when_valid-outcome (validate_job j) _ f.state
apply-outcome (deregister_job name) f = ground arith
apply-outcome (upsert_node n) f = when_valid-outcome (validate_node n) _ f.state
apply-outcome (upsert_alloc a) f = when_valid-outcome (validate_alloc a) _ f.state
apply-outcome (upsert_eval e) f = when_valid-outcome (validate_eval e) _ f.state

-- What a command leaves, on the four maps.
abbrev pub settled : Result (Unit {0}) → View → View → View
settled (ok _) next v = next
settled (err x) next v = v

unfoldable pub step : Command → View → View
unfolding spec outcome
step c v = settled (outcome c v) (spec c v) v

pub view-step : (c : Command) (f : Fsm) → IsValid f.state → view (apply c f).0 ≡ step c (view f)
unfolding step
view-step c f h = by_result (apply c f).1 refl
  where
    by_result : (r : Result (Unit {0})) → (apply c f).1 ≡ r → view (apply c f).0 ≡ step c (view f)
    by_result (ok u) e =
        view-apply c f h e
        ∙ ap (λ r. settled r (spec c (view f)) (view f)) (sym e ∙ apply-outcome c f)
    by_result (err x) e =
        ap view (apply_rejected c f e)
        ∙ ap (λ r. settled r (spec c (view f)) (view f)) (sym e ∙ apply-outcome c f)

update_comm :
    {V : Type 0} (k j : String) (v w : Option V) (g : String → Option V)
    → k ≢ j
    → update k v (update j w g) ≡ update j w (update k v g)
update_comm k j v w g h = fun_ext λ i. elim (String_discrete k i) [
  | yes p ↦ elim (String_discrete j i) [ yes q ↦ absurd (h (p ∙ sym q)) | no n ↦ ground arith ]
  | no n ↦ ground arith
]

spec_comm : (c d : Command) (v : View) → entry c ≢ entry d → spec c (spec d v) ≡ spec d (spec c v)
unfolding spec
spec_comm (upsert_job j) (upsert_job k) v h =
    ap (λ g. record v { jobs = g })
      (update_comm j.name k.name (some j) (some k) v.jobs (λ e. h (ap (λ x. (jobs, x)) e)))
spec_comm (upsert_job j) (deregister_job name) v h =
    ap (λ g. record v { jobs = g })
      (update_comm j.name name (some j) none v.jobs (λ e. h (ap (λ x. (jobs, x)) e)))
spec_comm (deregister_job name) (upsert_job k) v h =
    ap (λ g. record v { jobs = g })
      (update_comm name k.name none (some k) v.jobs (λ e. h (ap (λ x. (jobs, x)) e)))
spec_comm (deregister_job name) (deregister_job other) v h =
    ap (λ g. record v { jobs = g })
      (update_comm name other none none v.jobs (λ e. h (ap (λ x. (jobs, x)) e)))
spec_comm (upsert_node n) (upsert_node m) v h =
    ap (λ g. record v { nodes = g })
      (update_comm n.id m.id (some n) (some m) v.nodes (λ e. h (ap (λ x. (nodes, x)) e)))
spec_comm (upsert_alloc a) (upsert_alloc b) v h =
    ap (λ g. record v { allocs = g })
      (update_comm a.id b.id (some a) (some b) v.allocs (λ e. h (ap (λ x. (allocs, x)) e)))
spec_comm (upsert_eval a) (upsert_eval b) v h =
    ap (λ g. record v { evals = g })
      (update_comm a.id b.id (some a) (some b) v.evals (λ e. h (ap (λ x. (evals, x)) e)))
spec_comm c d v h = refl

-- A command leaves the other jobs.
jobs-step :
    (c : Command) (name : String) (v : View)
    → entry c ≢ (jobs, name)
    → (step c v).jobs name ≡ v.jobs name
unfolding step spec
jobs-step c name v h = by_result (outcome c v) c h
  where
    untouched : (c : Command) → entry c ≢ (jobs, name) → (spec c v).jobs name ≡ v.jobs name
    untouched (upsert_job j) h = elim (String_discrete j.name name) [
      | yes e ↦ absurd (h (ap (λ x. (jobs, x)) e))
      | no k ↦ ground arith
    ]
    untouched (deregister_job other) h = elim (String_discrete other name) [
      | yes e ↦ absurd (h (ap (λ x. (jobs, x)) e))
      | no k ↦ ground arith
    ]
    untouched c h = refl

    by_result :
        (r : Result (Unit {0})) (c : Command)
        → entry c ≢ (jobs, name)
        → (settled r (spec c v) v).jobs name ≡ v.jobs name
    by_result (ok u) c h = untouched c h
    by_result (err x) c h = refl

pub outcome-step :
    (c d : Command) (v : View) → entry c ≢ entry d → outcome d (step c v) ≡ outcome d v
unfolding outcome
outcome-step c (deregister_job name) v h = ap (found name) (jobs-step c name v h)
outcome-step c d v h = refl

pub step_comm :
    (c d : Command) (v : View) → entry c ≢ entry d → step c (step d v) ≡ step d (step c v)
unfolding step
step_comm c d v h =
    ap (λ r. settled r (spec c (step d v)) (step d v)) (outcome-step d c v (λ e. h (sym e)))
    ∙ by_results (outcome c v) (outcome d v)
    ∙ ap (λ r. settled r (spec d (step c v)) (step c v)) (sym (outcome-step c d v h))
  where
    -- The four combinations of results.
    by_results :
        (r q : Result (Unit {0}))
        → settled r (spec c (settled q (spec d v) v)) (settled q (spec d v) v)
          ≡ settled q (spec d (settled r (spec c v) v)) (settled r (spec c v) v)
    by_results (ok a) (ok b) = spec_comm c d v h
    by_results (ok a) (err y) = refl
    by_results (err x) (ok b) = refl
    by_results (err x) (err y) = refl
