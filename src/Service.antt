-- ===== src/Service.antt =====
-- service.rs: services and their checks.
use nomad_rs.Base.{
  ℕ, Bool, true, false, ◌&&◌, ◌||◌, ◌==◌, String, Option, none, some, List, is_empty, leb,
}
use nomad_rs.Error.{
  config, Result, ◌>>◌, refuse, each, check_interval_zero, check_timeout_out_of_range,
  http_check_without_path, service_name_empty,
}

pub data CheckType : Type 0 where
  tcp http script grpc : CheckType

pub data ServiceProvider : Type 0 where
  consul nomad : ServiceProvider

pub record ServiceCheck : Type 0 where
  pub name : String
  pub check_type : CheckType
  pub interval_secs : ℕ
  pub timeout_secs : ℕ
  pub path : Option String

-- `check_type == CheckType::Http`, and `is_none`.
abbrev is_http : CheckType → Bool
is_http c = elim c [ http ↦ true | _ ↦ false ]

abbrev is_none : Option String → Bool
is_none none = true
is_none (some s) = false

unfoldable pub validate_check : ServiceCheck → Result (Unit {0})
validate_check c = do
  refuse (c.interval_secs == 0) (config check_interval_zero)
  refuse (c.timeout_secs == 0 || leb c.interval_secs c.timeout_secs)
      (config check_timeout_out_of_range)
  refuse (is_http c.check_type && is_none c.path) (config http_check_without_path)

pub record Service : Type 0 where
  pub name : String
  pub port_label : String
  pub provider : ServiceProvider
  pub tags : List String
  pub checks : List ServiceCheck

unfoldable pub validate_service : Service → Result (Unit {0})
unfolding each validate_check
validate_service s = do
  refuse (is_empty s.name) (config service_name_empty)
  each validate_check s.checks
