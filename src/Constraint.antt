-- ===== src/Constraint.antt =====
-- constraint.rs: constraints, affinities and spreads. The `regex` and `semver` crates are the
-- parameter `Matchers`.
pub mod Words
use nomad_rs.Base.{
  ℕ, ◌+◌, ◌%◌, ◌≡◌, Bool, true, false, not, ◌&&◌, ◌||◌, String, Option, none, some, List, [], ◌∷◌,
  str_eq, is_empty, leb, ltb, if◌then◌else◌,
}
use nomad_rs.Base.Int.{ℤ, pos, negsuc, leb_ℤ, ltb_ℤ}
use nomad_rs.Base.HashMap.{HashMap, get}
use nomad_rs.Error.{
  Error, config, Result, ok, err, ◌>>◌, ◌>>=◌, refuse, constraint_left_empty,
  constraint_right_empty, unknown_constraint_operand, affinity_weight_out_of_range,
  affinity_left_empty, unknown_affinity_operand, spread_attribute_empty, spread_percents_exceed,
}
use Words.{codes, parse_i64, any_part, trim}

pub record Constraint : Type 0 where
  pub left : String
  pub right : String
  pub operand : String

-- `weight` is an `i8`.
pub record Affinity : Type 0 where
  pub left : String
  pub right : String
  pub operand : String
  pub weight : ℤ

-- `percent` is a `u8`.
pub record SpreadTarget : Type 0 where
  pub value : String
  pub percent : ℕ

pub record Spread : Type 0 where
  pub attribute : String
  pub targets : List SpreadTarget

-- What the code calls of the `regex` and `semver` crates; `none` is a text that does not parse.
pub record Matchers : Type 1 where
  pub Regex : Type 0
  pub Version : Type 0
  pub VersionReq : Type 0
  pub new_regex : String → Option Regex
  pub is_match : Regex → String → Bool
  pub parse_version : String → Option Version
  -- `VersionReq::parse`, of the code points of a text.
  pub parse_req : List ℕ → Option VersionReq
  pub matches_req : VersionReq → Version → Bool

-- `KNOWN_OPERANDS`.
unfoldable pub is_known : String → Bool
is_known s =
    str_eq s "="
    || (str_eq s "!="
        || (str_eq s ">"
            || (str_eq s ">="
                || (str_eq s "<"
                    || (str_eq s "<="
                        || (str_eq s "regexp"
                            || (str_eq s "version"
                                || (str_eq s "set_contains"
                                    || (str_eq s "distinct_hosts"
                                        || str_eq s "distinct_property")))))))))

unfoldable pub needs_no_target : String → Bool
needs_no_target s = str_eq s "distinct_hosts" || str_eq s "distinct_property"

-- `Constraint::validate`.
unfoldable pub validate : Constraint → Result (Unit {0})
validate c = do
  refuse (is_empty c.left) (config constraint_left_empty)
  refuse (is_empty c.right && not (needs_no_target c.operand)) (config constraint_right_empty)
  refuse (not (is_known c.operand)) (config (unknown_constraint_operand c.operand))

-- `Affinity::validate`.
unfoldable pub validate_affinity : Affinity → Result (Unit {0})
validate_affinity a = do
  refuse (not (leb_ℤ (negsuc 99) a.weight && leb_ℤ a.weight (pos 100)))
      (config (affinity_weight_out_of_range a.weight))
  refuse (is_empty a.left) (config affinity_left_empty)
  refuse (not (is_known a.operand)) (config (unknown_affinity_operand a.operand))

-- The sum of the percents, an `u16`.
unfoldable pub total_percent : List SpreadTarget → ℕ
total_percent [] = 0
total_percent (t ∷ ts) = (t.percent + total_percent ts) % 65536

-- `Spread::validate`.
unfoldable pub validate_spread : Spread → Result (Unit {0})
validate_spread s = do
  refuse (is_empty s.attribute) (config spread_attribute_empty)
  refuse (ltb 100 (total_percent s.targets))
      (config (spread_percents_exceed (total_percent s.targets)))

-- `cmp_num`.
unfoldable pub cmp_num : String → String → (ℤ → ℤ → Bool) → Bool
cmp_num left right cmp = elim (parse_i64 (codes left)) [
  | none ↦ false
  | some l ↦ elim (parse_i64 (codes right)) [ none ↦ false | some r ↦ cmp l r ]
]

-- The attribute's value, or the empty text.
abbrev attribute : String → HashMap String → String
attribute k m = elim (get k m) [ none ↦ "" | some v ↦ v ]

module _ (lib : Matchers) where
  open lib use {new_regex, is_match, parse_version, parse_req, matches_req}

  -- `eval_regexp`.
  unfoldable pub eval_regexp : String → String → Bool
  eval_regexp val pattern = elim (new_regex pattern) [ none ↦ false | some re ↦ is_match re val ]

  -- `eval_version`.
  unfoldable pub eval_version : String → String → Bool
  eval_version val constraint = elim (parse_version val) [
    | none ↦ false
    | some ver ↦ elim (parse_req (trim (codes constraint))) [
      | none ↦ false
      | some req ↦ matches_req req ver
    ]
  ]

  -- `Constraint::satisfied_by`.
  unfoldable pub satisfied_by : Constraint → HashMap String → Bool
  satisfied_by c attributes =
      let val : String = attribute c.left attributes in
      if str_eq c.operand "="
      then str_eq val c.right
      else (if str_eq c.operand "!="
          then not (str_eq val c.right)
          else (if str_eq c.operand ">"
              then cmp_num val c.right (λ a b. ltb_ℤ b a)
              else (if str_eq c.operand ">="
                  then cmp_num val c.right (λ a b. leb_ℤ b a)
                  else (if str_eq c.operand "<"
                      then cmp_num val c.right (λ a b. ltb_ℤ a b)
                      else (if str_eq c.operand "<="
                          then cmp_num val c.right (λ a b. leb_ℤ a b)
                          else (if str_eq c.operand "regexp"
                              then eval_regexp val c.right
                              else (if str_eq c.operand "version"
                                  then eval_version val c.right
                                  else (if str_eq c.operand "set_contains"
                                      then any_part (codes c.right) (codes val)
                                      else (if str_eq c.operand "distinct_hosts"
                                          then true
                                          else str_eq c.operand "distinct_property")))))))))

  -- `Affinity::satisfied_by`.
  unfoldable pub affinity_satisfied_by : Affinity → HashMap String → Bool
  affinity_satisfied_by a attributes =
      let val : String = attribute a.left attributes in
      if str_eq a.operand "="
      then str_eq val a.right
      else (if str_eq a.operand "!="
          then not (str_eq val a.right)
          else (if str_eq a.operand ">"
              then cmp_num val a.right (λ x y. ltb_ℤ y x)
              else (if str_eq a.operand ">="
                  then cmp_num val a.right (λ x y. leb_ℤ y x)
                  else (if str_eq a.operand "<"
                      then cmp_num val a.right (λ x y. ltb_ℤ x y)
                      else (if str_eq a.operand "<="
                          then cmp_num val a.right (λ x y. leb_ℤ x y)
                          else (if str_eq a.operand "regexp"
                              then eval_regexp val a.right
                              else (if str_eq a.operand "version"
                                  then eval_version val a.right
                                  else (if str_eq a.operand "set_contains"
                                      then any_part (codes a.right) (codes val)
                                      else (if str_eq a.operand "distinct_hosts"
                                          then true
                                          else str_eq a.operand "distinct_property")))))))))
