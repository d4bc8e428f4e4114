-- ===== src/Examples/Stores.antt =====
-- The store, the state machine, the node and the saved file, on a store of one job.
use nomad_rs.Base.{◌≡◌, refl, [], ◌∷◌, true, String_discrete, ◌↔◌}
use nomad_rs.Base.HashMap.{get, insert, remove}
use nomad_rs.Error.{ok, err, each, runtime, not_leader}
use nomad_rs.Jobspec.{
  validate_job, validate_group, validate_tasks, validate_task, validate_resources, contains,
  any_empty,
}
use nomad_rs.Alloc.{validate_alloc}
use nomad_rs.Eval.{validate_eval}
use nomad_rs.Node.{validate_node}
use nomad_rs.State
use nomad_rs.State.{StateStore, Codec, Disk, save, load}
use nomad_rs.State.Valid.{IsValid}
use nomad_rs.State.Persist.{Reads, load-save}
use nomad_rs.Fsm.{Fsm, apply, upsert_job, deregister_job, upsert_node}
use nomad_rs.Fsm.Keeps.{apply_ok_iff}
use mathlib.Core.Quot
use text.Mathlib.TextEquality.{eq_iff}
use nomad_rs.Base.{String, ap, arith, ◌≢◌}
use nomad_rs.Jobspec.{Job}
use nomad_rs.Fsm.Order.{Table, entry}
use nomad_rs.Fsm.Machine.{Machine, commit, commit_comm}
use nomad_rs.Fsm.Refines.{view, spec, view-apply}
use nomad_rs.Raft.{bootstrap, new, propose}
use nomad_rs.Raft.Replay.{Replays, run, run-bootstrap, propose_failed}
use nomad_rs.Examples.{store, shop, node_1}

checks : Unit {0}
unfolding validate_job validate_group validate_tasks validate_task validate_resources contains
    any_empty each validate_alloc validate_eval validate_node get insert remove String_discrete
checks = tt

pub store-IsValid : IsValid store
unfolding checks
store-IsValid = record {
  jobs = ((refl, tt), ((refl, refl), tt));
  nodes = ((refl, (refl, tt)), ((refl, refl), ((refl, refl), tt)));
  allocs = ((refl, tt), ((refl, refl), tt));
  evals = (tt, tt);
}

abbrev pub machine : Fsm
machine = record { state = store }

apply_ok_iff_example : ((apply (upsert_job shop) machine).1 ≡ ok tt) ↔ (validate_job shop ≡ ok tt)
apply_ok_iff_example = apply_ok_iff (upsert_job shop) machine

removed : (apply (deregister_job "shop") machine).1 ≡ ok tt
unfolding checks apply State.delete_job
removed = refl

view-apply_example :
    view (apply (deregister_job "shop") machine).0 ≡ spec (deregister_job "shop") (view machine)
view-apply_example = view-apply (deregister_job "shop") machine store-IsValid removed

run-bootstrap_example :
    Replays (run (bootstrap "server") (upsert_node node_1 ∷ upsert_job shop ∷ []))
    × IsValid (run (bootstrap "server") (upsert_node node_1 ∷ upsert_job shop ∷ [])).fsm.state
run-bootstrap_example = run-bootstrap "server" (upsert_node node_1 ∷ upsert_job shop ∷ [])

follower_refuses : (propose (upsert_job shop) (new "server")).1 ≡ err (runtime not_leader)
unfolding propose new
follower_refuses = refl

propose_failed_example : (propose (upsert_job shop) (new "server")).0 ≡ new "server"
propose_failed_example = propose_failed (upsert_job shop) (new "server") follower_refuses

-- An encoding that keeps the store.
abbrev identity : Codec
identity = record { Bytes = StateStore; to_vec = λ s. ok s; from_slice = λ b. ok b }

abbrev disk : Disk StateStore
disk = record { files = []; writable = λ p. true }

saved : (save identity "state.json" store disk).1 ≡ ok tt
unfolding save
saved = refl

load-save_example :
    (load identity "state.json" (save identity "state.json" store disk).0 ≡ ok store)
    ↔ Reads identity store store
load-save_example = load-save identity "state.json" store disk saved store

abbrev tea : Job
tea = record shop { name = "tea" }

other_job : entry (deregister_job "shop") ≢ entry (upsert_job tea)
other_job e =
    let names : ◌≡◌ {A = String} "shop" "tea" = ap (λ (x : Table × String). x.1) e in
    ground (arith, eq_iff "shop" "tea", names)

-- One job is removed and another is stored, in either order.
commit_comm_example :
    (Path Machine
      (commit (deregister_job "shop") (commit (upsert_job tea) (Quot.mk (machine, store-IsValid))))
      (commit (upsert_job tea) (commit (deregister_job "shop") (Quot.mk (machine, store-IsValid)))))
    × ((apply (deregister_job "shop") (apply (upsert_job tea) machine).0).1
        ≡ (apply (deregister_job "shop") machine).1)
    × ((apply (upsert_job tea) (apply (deregister_job "shop") machine).0).1
        ≡ (apply (upsert_job tea) machine).1)
commit_comm_example =
    commit_comm (deregister_job "shop") (upsert_job tea) machine store-IsValid other_job
