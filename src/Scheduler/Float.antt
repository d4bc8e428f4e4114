-- ===== src/Scheduler/Float.antt =====
-- `f64`, as far as the scores use it.
use nomad_rs.Base.{ℕ, Bool, Ordering}
use nomad_rs.Base.Int.{ℤ}

pub record F64 : Type 1 where
  pub F : Type 0
  -- A literal such as `50.0`, and `as f64` of a count.
  pub of_ℕ : ℕ → F
  -- `f64::from` of an `i8`, `u8` or `i32`.
  pub of_int : ℤ → F
  pub add : F → F → F
  pub sub : F → F → F
  pub mul : F → F → F
  pub div : F → F → F
  -- What `Iterator::sum` starts from.
  pub sum_start : F
  -- `x > 0.0`.
  pub is_positive : F → Bool
  pub total_cmp : F → F → Ordering
