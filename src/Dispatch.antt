-- ===== src/Dispatch.antt =====
-- dispatch.rs: dispatches of a parameterized job.
pub mod Accepted
use nomad_rs.Base.{
  ℕ, Bool, true, false, not, ◌&&◌, ◌||◌, String, Option, none, some, List, [], ◌∷◌, ◌++◌, map,
  str_eq,
}
use nomad_rs.Base.HashMap.{HashMap, get}
use nomad_rs.Error.{
  config, Result, ok, err, ◌>>◌, ◌>>=◌, refuse, each, missing_meta_key, undeclared_meta_key,
  payload_forbidden, payload_required,
}

pub data PayloadMode : Type 0 where
  optional required forbidden : PayloadMode

pub record ParameterizedJob : Type 0 where
  pub meta_required : List String
  pub meta_optional : List String
  pub payload : PayloadMode

pub record DispatchRequest : Type 0 where
  pub meta : HashMap String
  pub payload : Option (List ℕ)

abbrev pub is_some {ℓ} : {A : Type ℓ} → Option A → Bool
is_some none = false
is_some (some x) = true

-- Membership in the set of the declared keys.
unfoldable pub contains : List String → String → Bool
contains [] x = false
contains (y ∷ ys) x = str_eq y x || contains ys x

unfoldable pub check_payload : PayloadMode → Option (List ℕ) → Result (Unit {0})
check_payload forbidden p = refuse (is_some p) (config payload_forbidden)
check_payload required p = refuse (not (is_some p)) (config payload_required)
check_payload optional p = ok tt

unfoldable pub validate_dispatch : ParameterizedJob → DispatchRequest → Result (Unit {0})
unfolding contains check_payload each
validate_dispatch j r = do
  each (λ k. refuse (not (is_some (get k r.meta))) (config (missing_meta_key k))) j.meta_required
  each
      (λ k.
        refuse (not (contains (j.meta_required ++ j.meta_optional) k))
          (config (undeclared_meta_key k)))
      (map (λ e. e.0) r.meta)
  check_payload j.payload r.payload
