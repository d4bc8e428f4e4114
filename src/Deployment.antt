-- ===== src/Deployment.antt =====
-- deployment.rs: a deployment's counts.
use nomad_rs.Base.{ℕ, Bool, ◌&&◌, String, is_empty, leb, ltb}
use nomad_rs.Error.{
  config, Result, ◌>>◌, refuse, deployment_id_empty, deployment_job_id_empty,
  healthy_exceeds_placed,
}

pub data DeploymentStatus : Type 0 where
  running successful failed cancelled paused : DeploymentStatus

pub record Deployment : Type 0 where
  pub id : String
  pub job_id : String
  pub status : DeploymentStatus
  pub desired_canaries : ℕ
  pub placed : ℕ
  pub healthy : ℕ

unfoldable pub validate_deployment : Deployment → Result (Unit {0})
validate_deployment d = do
  refuse (is_empty d.id) (config deployment_id_empty)
  refuse (is_empty d.job_id) (config deployment_job_id_empty)
  refuse (ltb d.placed d.healthy) (config (healthy_exceeds_placed d.healthy d.placed))

unfoldable pub is_promotable : Deployment → Bool
is_promotable d = ltb 0 d.desired_canaries && leb d.desired_canaries d.healthy
