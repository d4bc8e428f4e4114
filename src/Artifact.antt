-- ===== src/Artifact.antt =====
-- artifact.rs: what a task fetches before it starts. The getter is a stub.
use nomad_rs.Base.{
  ℕ, Bool, false, ◌||◌, String, Option, none, some, List, [], ◌∷◌, ◌==◌, not, is_empty,
}
use nomad_rs.Constraint.Words.{codes}
use nomad_rs.Error.{config, Result, ok, ◌>>◌, refuse, artifact_source_empty, checksum_malformed}

pub record Artifact : Type 0 where
  pub source : String
  pub destination : String
  pub checksum : Option String

-- `contains(':')`.
unfoldable pub has_colon : List ℕ → Bool
has_colon [] = false
has_colon (c ∷ cs) = c == b':' || has_colon cs

abbrev pub is_malformed : Option String → Bool
is_malformed none = false
is_malformed (some sum) = not (has_colon (codes sum))

unfoldable pub validate_artifact : Artifact → Result (Unit {0})
unfolding has_colon
validate_artifact a = do
  refuse (is_empty a.source) (config artifact_source_empty)
  refuse (is_malformed a.checksum) (config checksum_malformed)

-- `UrlGetter::get`.
unfoldable pub url_get : Artifact → String → Result (Unit {0})
url_get a task_dir = ok tt
