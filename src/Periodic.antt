-- ===== src/Periodic.antt =====
-- periodic.rs: launches on a cron schedule. The crates cron and chrono are arguments.
use nomad_rs.Base.{Bool, String, Option, none, some, List, [], ◌∷◌, is_empty, if◌then◌else◌}
use nomad_rs.Base.Int.{ℤ}
use nomad_rs.Error.{
  Error, config, runtime, Result, ok, err, ◌>>=◌, refuse, invalid_cron_spec, invalid_cron,
  time_zone_empty, invalid_timestamp, no_upcoming_time,
}

pub record PeriodicConfig : Type 0 where
  pub spec : String
  pub time_zone : String
  pub prohibit_overlap : Bool

-- `Schedule::from_str`, the times of `upcoming(Utc)` as they are when it is called, in order, and
-- `DateTime` with `from_timestamp`, `>` and `timestamp`.
pub record Cron : Type 1 where
  pub Schedule : Type 0
  pub DateTime : Type 0
  pub from_str : String → Option Schedule
  pub upcoming : Schedule → List DateTime
  pub from_timestamp : ℤ → Option DateTime
  pub later : DateTime → DateTime → Bool
  pub timestamp : DateTime → ℤ

-- `ok_or_else`.
abbrev pub ok_or {ℓ} : {A : Type ℓ} → Option A → Error → Result A
ok_or none x = err x
ok_or (some a) x = ok a

module _ (cron : Cron) where
  unfoldable pub validate_periodic : PeriodicConfig → Result (Unit {0})
  validate_periodic p = do
    schedule ← ok_or (cron.from_str p.spec) (config (invalid_cron_spec p.spec))
    refuse (is_empty p.time_zone) (config time_zone_empty)

  -- `find(|t| *t > after)`.
  unfoldable pub first_after : cron.DateTime → List cron.DateTime → Option cron.DateTime
  first_after after [] = none
  first_after after (t ∷ ts) =
      let rest = first_after after ts in if cron.later t after then some t else rest

  unfoldable pub next : ℤ → PeriodicConfig → Result ℤ
  unfolding first_after
  next after_unix p = do
    schedule ← ok_or (cron.from_str p.spec) (config invalid_cron)
    after ← ok_or (cron.from_timestamp after_unix) (runtime invalid_timestamp)
    found ← ok_or (first_after after (cron.upcoming schedule)) (runtime no_upcoming_time)
    ok (cron.timestamp found)
