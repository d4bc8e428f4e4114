-- ===== src/Scaling.antt =====
-- scaling.rs: the bounds of a group's count.
use nomad_rs.Base.{ℕ, Bool, Option, none, some, ltb, if◌then◌else◌}
use nomad_rs.Error.{config, Result, refuse, scaling_min_exceeds_max}

pub record ScalingPolicy : Type 0 where
  pub min : ℕ
  pub max : ℕ
  pub enabled : Bool

unfoldable pub validate_scaling : ScalingPolicy → Result (Unit {0})
validate_scaling p = refuse (ltb p.max p.min) (config (scaling_min_exceeds_max p.min p.max))

-- `u32::clamp`, `none` where it panics.
unfoldable pub clamp : ScalingPolicy → ℕ → Option ℕ
clamp p desired =
    if ltb p.max p.min
    then none
    else some (if ltb desired p.min then p.min else (if ltb p.max desired then p.max else desired))
