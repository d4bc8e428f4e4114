-- ===== src/State.antt =====
-- state.rs: the in-memory store of jobs, nodes, allocations and evaluations. A method on
-- `&mut self` returns the store that it leaves beside its result.
pub mod Valid
pub mod Persist
use nomad_rs.Base.{Bool, true, false, String, Option, none, some, List, [], ◌∷◌, filter, str_eq}
use nomad_rs.Base.HashMap
use nomad_rs.Base.HashMap.{HashMap, get, insert, remove, values}
use nomad_rs.Error.{Error, validation, Result, ok, err, ◌>>=◌, ◌>>◌, each, job_not_found}
use nomad_rs.Jobspec.{Job, validate_job}
use nomad_rs.Alloc.{Allocation, validate_alloc}
use nomad_rs.Eval.{Evaluation, validate_eval}
use nomad_rs.Node.{Node, validate_node}

pub record StateStore : Type 0 where
  pub jobs : HashMap Job
  pub nodes : HashMap Node
  pub allocs : HashMap Allocation
  pub evals : HashMap Evaluation

unfoldable pub new : StateStore
new = record { jobs = []; nodes = []; allocs = []; evals = [] }

-- `check?; self = next; Ok(())`.
abbrev pub when_valid : Result (Unit {0}) → StateStore → StateStore → StateStore × Result (Unit {0})
when_valid (ok _) next s = (next, ok tt)
when_valid (err e) next s = (s, err e)

unfoldable pub upsert_job : Job → StateStore → StateStore × Result (Unit {0})
upsert_job j s = when_valid (validate_job j) (record s { jobs = insert j.name j s.jobs }) s

unfoldable pub get_job : String → StateStore → Option Job
get_job name s = get name s.jobs

unfoldable pub delete_job : String → StateStore → StateStore × Result (Unit {0})
delete_job name s = elim (get name s.jobs) [
  | none ↦ (s, err (validation (job_not_found name)))
  | some j ↦ (record s { jobs = remove name s.jobs }, ok tt)
]

unfoldable pub list_jobs : StateStore → List Job
list_jobs s = values s.jobs

unfoldable pub upsert_node : Node → StateStore → StateStore × Result (Unit {0})
upsert_node n s = when_valid (validate_node n) (record s { nodes = insert n.id n s.nodes }) s

unfoldable pub get_node : String → StateStore → Option Node
get_node id s = get id s.nodes

unfoldable pub list_nodes : StateStore → List Node
list_nodes s = values s.nodes

unfoldable pub upsert_alloc : Allocation → StateStore → StateStore × Result (Unit {0})
upsert_alloc a s = when_valid (validate_alloc a) (record s { allocs = insert a.id a s.allocs }) s

unfoldable pub get_alloc : String → StateStore → Option Allocation
get_alloc id s = get id s.allocs

unfoldable pub list_allocs : StateStore → List Allocation
list_allocs s = values s.allocs

unfoldable pub allocs_by_node : String → StateStore → List Allocation
allocs_by_node node_id s = filter (λ a. str_eq a.node_id node_id) (values s.allocs)

unfoldable pub allocs_by_job : String → StateStore → List Allocation
allocs_by_job job_id s = filter (λ a. str_eq a.job_id job_id) (values s.allocs)

unfoldable pub upsert_eval : Evaluation → StateStore → StateStore × Result (Unit {0})
upsert_eval e s = when_valid (validate_eval e) (record s { evals = insert e.id e s.evals }) s

unfoldable pub get_eval : String → StateStore → Option Evaluation
get_eval id s = get id s.evals

unfoldable pub list_evals : StateStore → List Evaluation
list_evals s = values s.evals

-- What `save` and `load` use of `serde_json`: an encoding that may fail, and a decoder.
pub record Codec : Type 1 where
  pub Bytes : Type 0
  pub to_vec : StateStore → Result Bytes
  pub from_slice : Bytes → Result StateStore

-- A file system: the contents by path, and whether a write of a path succeeds.
pub record Disk (Bytes : Type 0) : Type 0 where
  pub files : HashMap Bytes
  pub writable : String → Bool

module _ {Bytes : Type 0} where
  -- `std::fs::write`, `std::fs::read`.
  unfoldable pub write : String → Bytes → Disk Bytes → Disk Bytes × Result (Unit {0})
  write path bytes d = elim (d.writable path) [
    | true ↦ (record d { files = insert path bytes d.files }, ok tt)
    | false ↦ (d, err Error.io)
  ]

  unfoldable pub read : String → Disk Bytes → Result Bytes
  read path d = elim (get path d.files) [ none ↦ err Error.io | some bytes ↦ ok bytes ]

-- The four loops of `load`.
unfoldable pub check_all : StateStore → Result (Unit {0})
check_all s = do
  each validate_job (values s.jobs)
  each validate_node (values s.nodes)
  each validate_alloc (values s.allocs)
  each validate_eval (values s.evals)

module _ (codec : Codec) where
  open codec use {Bytes, to_vec, from_slice}

  unfoldable pub save : String → StateStore → Disk Bytes → Disk Bytes × Result (Unit {0})
  unfolding write
  save path s d = elim (to_vec s) [ err e ↦ (d, err e) | ok bytes ↦ write path bytes d ]

  unfoldable pub load : String → Disk Bytes → Result StateStore
  unfolding read
  load path d = do bytes ← read path d; store ← from_slice bytes; check_all store; ok store
