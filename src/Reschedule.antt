-- ===== src/Reschedule.antt =====
-- reschedule.rs: the policies of restarts and of rescheduling.
use nomad_rs.Base.{ℕ, Bool, true, false, ◌&&◌, not, ltb, leb, ◌==◌}
use nomad_rs.Error.{
  config, Result, ◌>>◌, refuse, restart_interval_zero, restart_delay_too_long,
  no_reschedule_attempts, max_delay_too_short,
}

pub data RestartMode : Type 0 where
  delay fail : RestartMode

pub record RestartPolicy : Type 0 where
  pub attempts : ℕ
  pub interval_secs : ℕ
  pub delay_secs : ℕ
  pub mode : RestartMode

unfoldable pub validate_restart : RestartPolicy → Result (Unit {0})
validate_restart p = do
  refuse (ltb 0 p.attempts && p.interval_secs == 0) (config restart_interval_zero)
  refuse (ltb p.interval_secs p.delay_secs) (config restart_delay_too_long)

pub data DelayFunction : Type 0 where
  constant exponential fibonacci : DelayFunction

pub record ReschedulePolicy : Type 0 where
  pub attempts : ℕ
  pub interval_secs : ℕ
  pub delay_secs : ℕ
  pub delay_function : DelayFunction
  pub max_delay_secs : ℕ
  pub unlimited : Bool

-- The delays get longer.
abbrev pub grows : DelayFunction → Bool
grows f = elim f [ constant ↦ false | exponential ↦ true | fibonacci ↦ true ]

unfoldable pub validate_reschedule : ReschedulePolicy → Result (Unit {0})
validate_reschedule p = do
  refuse (not p.unlimited && p.attempts == 0) (config no_reschedule_attempts)
  refuse (grows p.delay_function && leb p.max_delay_secs p.delay_secs) (config max_delay_too_short)
