-- ===== src/Alloc.antt =====
-- alloc.rs and the id newtypes of id.rs, which are texts.
use nomad_rs.Base.{Bool, true, false, String, is_empty}
use nomad_rs.Error.{
  validation, Result, ◌>>◌, refuse, alloc_id_empty, alloc_node_id_empty, alloc_job_id_empty,
  alloc_task_group_empty,
}
use nomad_rs.Jobspec.{Resources}

abbrev pub JobId : Type 0
JobId = String

abbrev pub NodeId : Type 0
NodeId = String

abbrev pub AllocId : Type 0
AllocId = String

abbrev pub EvalId : Type 0
EvalId = String

pub data DesiredStatus : Type 0 where
  run stop evict : DesiredStatus

pub data ClientStatus : Type 0 where
  pending running complete failed lost : ClientStatus

-- `DesiredStatus::as_str`, `ClientStatus::as_str`.
unfoldable pub desired_str : DesiredStatus → String
desired_str run = "run"
desired_str stop = "stop"
desired_str evict = "evict"

unfoldable pub client_str : ClientStatus → String
client_str pending = "pending"
client_str running = "running"
client_str complete = "complete"
client_str failed = "failed"
client_str lost = "lost"

-- `ClientStatus::is_terminal`.
pub is_terminal_status : ClientStatus → Bool
is_terminal_status pending = false
is_terminal_status running = false
is_terminal_status complete = true
is_terminal_status failed = true
is_terminal_status lost = true

pub record Allocation : Type 0 where
  pub id : AllocId
  pub eval_id : EvalId
  pub node_id : NodeId
  pub job_id : JobId
  pub task_group : String
  pub desired_status : DesiredStatus
  pub client_status : ClientStatus
  pub resources : Resources

-- `Allocation::validate`.
unfoldable pub validate_alloc : Allocation → Result (Unit {0})
validate_alloc a = do
  refuse (is_empty a.id) (validation alloc_id_empty)
  refuse (is_empty a.node_id) (validation alloc_node_id_empty)
  refuse (is_empty a.job_id) (validation alloc_job_id_empty)
  refuse (is_empty a.task_group) (validation alloc_task_group_empty)

-- `Allocation::is_terminal`.
pub is_terminal : Allocation → Bool
is_terminal a = is_terminal_status a.client_status
