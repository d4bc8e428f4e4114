-- ===== src/Acl.antt =====
-- acl.rs: tokens and policies.
pub mod Grants
use nomad_rs.Base.{
  ℕ, Bool, true, false, not, ◌&&◌, ◌||◌, String, Option, none, some, List, [], ◌∷◌, leb, str_eq,
  is_empty, if◌then◌else◌,
}
use nomad_rs.Base.HashMap.{HashMap, get}
use nomad_rs.Error.{
  config, Result, ok, ◌>>◌, ◌>>=◌, refuse, token_accessor_empty, token_secret_empty,
  token_without_policy,
}

-- In the derived order.
pub data Capability : Type 0 where
  read write deny : Capability

pub record Policy : Type 0 where
  pub name : String
  pub rules : HashMap Capability

pub record Token : Type 0 where
  pub accessor : String
  pub secret : String
  pub policies : List String
  pub management : Bool

abbrev is_none {ℓ} : {A : Type ℓ} → List A → Bool
is_none [] = true
is_none (x ∷ xs) = false

unfoldable pub validate_token : Token → Result (Unit {0})
validate_token t = do
  refuse (is_empty t.accessor) (config token_accessor_empty)
  refuse (is_empty t.secret) (config token_secret_empty)
  refuse (not t.management && is_none t.policies) (config token_without_policy)

-- The rank in the derived `Ord`, and `grant >= &capability`.
abbrev pub capability_rank : Capability → ℕ
capability_rank read = 0
capability_rank write = 1
capability_rank deny = 2

abbrev pub at_least : Capability → Capability → Bool
at_least grant c = leb (capability_rank c) (capability_rank grant)

abbrev pub contains : List String → String → Bool
contains [] x = false
contains (y ∷ ys) x = str_eq y x || contains ys x

-- What one of the token's policies says: refused, granted, or nothing.
abbrev pub decides : Capability → Option Capability → Option Bool
decides c none = none
decides c (some deny) = some false
decides c (some read) = if at_least read c then some true else none
decides c (some write) = if at_least write c then some true else none

-- The loop over the policies.
unfoldable pub allows_from : List String → String → Capability → List Policy → Bool
allows_from own resource c [] = false
allows_from own resource c (p ∷ ps) =
    let rest = allows_from own resource c ps in
    if not (contains own p.name)
    then rest
    else elim (decides c (get resource p.rules)) [ some answer ↦ answer | none ↦ rest ]

unfoldable pub allows : Token → String → Capability → List Policy → Bool
unfolding allows_from
allows t resource c ps = if t.management then true else allows_from t.policies resource c ps
