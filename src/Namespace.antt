-- ===== src/Namespace.antt =====
-- namespace.rs: the name of a namespace.
use nomad_rs.Base.{ℕ, Bool, true, ◌&&◌, ◌||◌, String, List, [], ◌∷◌, leb, ◌==◌, not, is_empty}
use nomad_rs.Constraint.Words.{codes}
use nomad_rs.Error.{
  config, Result, ◌>>◌, refuse, namespace_name_empty, namespace_invalid_characters,
}

pub record Namespace : Type 0 where
  pub name : String
  pub description : String

-- `c.is_ascii_lowercase() || c.is_ascii_digit() || c == '-'`.
unfoldable pub is_allowed : ℕ → Bool
is_allowed c = (leb b'a' c && leb c b'z') || ((leb b'0' c && leb c b'9') || c == b'-')

-- `chars().all(..)`.
unfoldable pub all_allowed : List ℕ → Bool
unfolding is_allowed
all_allowed [] = true
all_allowed (c ∷ cs) = is_allowed c && all_allowed cs

unfoldable pub validate_namespace : Namespace → Result (Unit {0})
unfolding all_allowed
validate_namespace ns = do
  refuse (is_empty ns.name) (config namespace_name_empty)
  refuse (not (all_allowed (codes ns.name))) (config (namespace_invalid_characters ns.name))
