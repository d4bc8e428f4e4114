-- ===== src/Fsm/Refines.antt =====
-- fsm.rs: the store as four finite maps, and a command as an update of one of them.
use mathlib.Core.Path.{fun_ext}
use nomad_rs.Base.{
  String, ◌≡◌, ap, Option, none, some, arith, ite, String_discrete, inl, inr, Option-cases,
}
use nomad_rs.Base.HashMap.{
  HashMap, Distinct, get, insert, remove, get-insert, get-remove_self, get-remove_ne,
}
use nomad_rs.Error.{ok}
use nomad_rs.Jobspec.{Job}
use nomad_rs.Alloc.{Allocation}
use nomad_rs.Eval.{Evaluation}
use nomad_rs.Node.{Node}
use nomad_rs.State
use nomad_rs.State.{StateStore}
use nomad_rs.State.Valid.{IsValid}
use nomad_rs.Fsm.Keeps.{apply_ok_iff}
use nomad_rs.Fsm.{
  Fsm, Command, apply, upsert_job, deregister_job, upsert_node, upsert_alloc, upsert_eval,
}

-- The representation and the iteration order are forgotten.
pub record View : Type 0 where
  pub jobs : String → Option Job
  pub nodes : String → Option Node
  pub allocs : String → Option Allocation
  pub evals : String → Option Evaluation

unfoldable pub view : Fsm → View
view f = record {
  jobs = λ k. State.get_job k f.state;
  nodes = λ k. State.get_node k f.state;
  allocs = λ k. State.get_alloc k f.state;
  evals = λ k. State.get_eval k f.state;
}

-- The map with one key set.
abbrev pub update : {V : Type 0} → String → Option V → (String → Option V) → String → Option V
update k v g j = ite (String_discrete k j) v (g j)

-- What a command does to the maps.
unfoldable pub spec : Command → View → View
spec (upsert_job j) v = record v { jobs = update j.name (some j) v.jobs }
spec (deregister_job name) v = record v { jobs = update name none v.jobs }
spec (upsert_node n) v = record v { nodes = update n.id (some n) v.nodes }
spec (upsert_alloc a) v = record v { allocs = update a.id (some a) v.allocs }
spec (upsert_eval e) v = record v { evals = update e.id (some e) v.evals }

get-remove :
    {V : Type 0} (k j : String) (m : HashMap V)
    → Distinct m
    → get j (remove k m) ≡ update k none (λ i. get i m) j
get-remove k j m d = ground (arith, get-remove_self k m d, get-remove_ne k j m)

after-insert :
    {V : Type 0} (k : String) (v : V) (m : HashMap V)
    → Path (String → Option V) (λ j. get j (insert k v m)) (update k (some v) (λ j. get j m))
after-insert k v m = fun_ext (λ j. get-insert k j v m)

-- An accepted command acts on the four maps as its specification says: one key of one map is set
-- or cleared, and every other lookup of every table is unchanged.
pub view-apply :
    (c : Command) (f : Fsm)
    → IsValid f.state
    → (apply c f).1 ≡ ok tt
    → view (apply c f).0 ≡ spec c (view f)
unfolding apply view spec State.upsert_job State.delete_job State.upsert_node State.upsert_alloc
    State.upsert_eval State.get_job State.get_node State.get_alloc State.get_eval
view-apply (upsert_job j) f h e =
    rw ((apply_ok_iff (upsert_job j) f).0 e, State.upsert_job)
      (ap (λ g. record (view f) { jobs = g }) (after-insert j.name j f.state.jobs))
view-apply (deregister_job name) f h e = elim (Option-cases (get name f.state.jobs)) [
  | inl absent ↦ absurd ((apply_ok_iff (deregister_job name) f).0 e absent)
  | inr (j, found) ↦
      rw (found, State.delete_job)
        (ap (λ g. record (view f) { jobs = g })
          (fun_ext (λ k. get-remove name k f.state.jobs h.jobs.0)))
]
view-apply (upsert_node n) f h e =
    rw ((apply_ok_iff (upsert_node n) f).0 e, State.upsert_node)
      (ap (λ g. record (view f) { nodes = g }) (after-insert n.id n f.state.nodes))
view-apply (upsert_alloc a) f h e =
    rw ((apply_ok_iff (upsert_alloc a) f).0 e, State.upsert_alloc)
      (ap (λ g. record (view f) { allocs = g }) (after-insert a.id a f.state.allocs))
view-apply (upsert_eval a) f h e =
    rw ((apply_ok_iff (upsert_eval a) f).0 e, State.upsert_eval)
      (ap (λ g. record (view f) { evals = g }) (after-insert a.id a f.state.evals))
