-- ===== src/Drain.antt =====
-- drain.rs: the drain of a node.
use nomad_rs.Base.{ℕ, ◌-◌, Bool, not, ◌&&◌, ◌==◌, leb}
use nomad_rs.Error.{config, Result, refuse, drain_without_deadline}

pub record DrainSpec : Type 0 where
  pub deadline_secs : ℕ
  pub force : Bool
  pub ignore_system_jobs : Bool

unfoldable pub validate_drain : DrainSpec → Result (Unit {0})
validate_drain d = refuse (not d.force && d.deadline_secs == 0) (config drain_without_deadline)

pub record DrainProgress : Type 0 where
  pub remaining : ℕ
  pub complete : Bool

-- `saturating_sub` stops at 0, as `-` does.
unfoldable pub drain_progress : ℕ → ℕ → DrainProgress
drain_progress total migrated = record {
  remaining = total - migrated;
  complete = leb total migrated;
}
