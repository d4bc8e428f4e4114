-- ===== src/Update.antt =====
-- update.rs: the strategy of a rolling update.
use nomad_rs.Base.{ℕ, Bool, ◌==◌, leb, ltb}
use nomad_rs.Error.{config, Result, ◌>>◌, refuse, max_parallel_zero, deadline_too_short}

pub data HealthCheck : Type 0 where
  checks task_states manual : HealthCheck

pub record UpdateStrategy : Type 0 where
  pub max_parallel : ℕ
  pub canary : ℕ
  pub health_check : HealthCheck
  pub min_healthy_secs : ℕ
  pub healthy_deadline_secs : ℕ
  pub auto_revert : Bool
  pub auto_promote : Bool

unfoldable pub validate_update : UpdateStrategy → Result (Unit {0})
validate_update u = do
  refuse (u.max_parallel == 0) (config max_parallel_zero)
  refuse (leb u.healthy_deadline_secs u.min_healthy_secs)
      (config (deadline_too_short u.healthy_deadline_secs u.min_healthy_secs))

unfoldable pub uses_canary : UpdateStrategy → Bool
uses_canary u = ltb 0 u.canary
