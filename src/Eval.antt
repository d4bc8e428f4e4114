-- ===== src/Eval.antt =====
-- eval.rs: evaluations.
use nomad_rs.Base.{Bool, true, false, not, String, is_empty}
use nomad_rs.Base.Int.{ℤ}
use nomad_rs.Error.{
  validation, Result, ◌>>◌, refuse, eval_id_empty, eval_job_id_empty, priority_out_of_range,
}
use nomad_rs.Jobspec.{in_priority_range}
use nomad_rs.Alloc.{JobId, EvalId}

pub data EvalTrigger : Type 0 where
  job_register job_deregister node_update node_drain alloc_failure max_plan_attempts : EvalTrigger

-- `EvalTrigger::as_str`.
pub trigger_str : EvalTrigger → String
trigger_str job_register = "job-register"
trigger_str job_deregister = "job-deregister"
trigger_str node_update = "node-update"
trigger_str node_drain = "node-drain"
trigger_str alloc_failure = "alloc-failure"
trigger_str max_plan_attempts = "max-plan-attempts"

pub data EvalStatus : Type 0 where
  blocked pending complete failed canceled : EvalStatus

-- `EvalStatus::as_str`.
pub status_str : EvalStatus → String
status_str blocked = "blocked"
status_str pending = "pending"
status_str complete = "complete"
status_str failed = "failed"
status_str canceled = "canceled"

-- `EvalStatus::is_terminal`.
pub is_terminal : EvalStatus → Bool
is_terminal blocked = false
is_terminal pending = false
is_terminal complete = true
is_terminal failed = true
is_terminal canceled = true

pub record Evaluation : Type 0 where
  pub id : EvalId
  pub job_id : JobId
  pub priority : ℤ
  pub trigger : EvalTrigger
  pub status : EvalStatus

-- `Evaluation::validate`.
unfoldable pub validate_eval : Evaluation → Result (Unit {0})
validate_eval e = do
  refuse (is_empty e.id) (validation eval_id_empty)
  refuse (is_empty e.job_id) (validation eval_job_id_empty)
  refuse (not (in_priority_range e.priority)) (validation (priority_out_of_range e.priority))

-- `Evaluation::is_schedulable`: the status is `Pending`.
pub is_schedulable : Evaluation → Bool
is_schedulable e = elim e.status [ pending ↦ true | _ ↦ false ]
