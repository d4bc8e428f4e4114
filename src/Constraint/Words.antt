-- ===== src/Constraint/Words.antt =====
-- What constraint.rs uses of `str`, over code points: `parse::<i64>`, `split(',')` and `trim`.
use Prim.Native.Char.{code}
use nomad_rs.Base.{
  ℕ, ◌+◌, ◌-◌, ◌*◌, Bool, true, false, ◌&&◌, ◌||◌, String, Option, none, some, List, [], ◌∷◌, leb,
  ltb, ◌==◌, if◌then◌else◌,
}
use nomad_rs.Base.Int.{ℤ, pos, negsuc}

abbrev pub codes : String → List ℕ
codes String.[] = []
codes (String.◌∷◌ c s) = code c ∷ codes s

is_digit : ℕ → Bool
is_digit c = leb b'0' c && leb c b'9'

-- The number that a run of digits writes after `acc`; `none` at any other character.
digits_from : ℕ → List ℕ → Option ℕ
unfolding is_digit
digits_from acc [] = some acc
digits_from acc (c ∷ cs) =
    let rest = digits_from (acc * 10 + (c - b'0')) cs in if is_digit c then rest else none

-- At least one digit.
magnitude : List ℕ → Option ℕ
unfolding digits_from
magnitude [] = none
magnitude (c ∷ cs) = digits_from 0 (c ∷ cs)

abbrev i64_half : ℕ
i64_half = 9223372036854775808

non_negative : Option ℕ → Option ℤ
non_negative none = none
non_negative (some n) = if ltb n i64_half then some (pos n) else none

non_positive : Option ℕ → Option ℤ
non_positive none = none
non_positive (some n) =
    if n == 0 then some (pos 0) else (if leb n i64_half then some (negsuc (n - 1)) else none)

-- An optional sign and digits; out of range is an error.
unfoldable pub parse_i64 : List ℕ → Option ℤ
unfolding magnitude non_negative non_positive
parse_i64 [] = none
parse_i64 (c ∷ cs) =
    if c == b'-'
    then non_positive (magnitude cs)
    else (if c == b'+' then non_negative (magnitude cs) else non_negative (magnitude (c ∷ cs)))

-- The characters with the Unicode property White_Space.
is_whitespace : ℕ → Bool
is_whitespace c =
    (leb 9 c && leb c 13)
    || (c == 32
        || (c == 133
            || (c == 160
                || (c == 5760
                    || ((leb 8192 c && leb c 8202)
                        || (c == 8232
                            || (c == 8233 || (c == 8239 || (c == 8287 || c == 12288)))))))))

trim_start : List ℕ → List ℕ
unfolding is_whitespace
trim_start [] = []
trim_start (c ∷ cs) = let rest = trim_start cs in if is_whitespace c then rest else c ∷ cs

-- White space behind the last other character.
trim_end : List ℕ → List ℕ
unfolding is_whitespace
trim_end [] = []
trim_end (c ∷ cs) = elim (trim_end cs) [
  | [] ↦ if is_whitespace c then [] else c ∷ []
  | d ∷ ds ↦ c ∷ d ∷ ds
]

unfoldable pub trim : List ℕ → List ℕ
unfolding trim_start trim_end
trim cs = trim_end (trim_start cs)

same : List ℕ → List ℕ → Bool
same [] [] = true
same (c ∷ cs) (d ∷ ds) = c == d && same cs ds
same _ _ = false

cut : ℕ → List (List ℕ) → List (List ℕ)
cut c [] = (c ∷ []) ∷ []
cut c (w ∷ ws) = if c == b',' then [] ∷ w ∷ ws else (c ∷ w) ∷ ws

-- `split(',')`: never empty.
split : List ℕ → List (List ℕ)
unfolding cut
split [] = [] ∷ []
split (c ∷ cs) = cut c (split cs)

any_same : List ℕ → List (List ℕ) → Bool
unfolding same trim
any_same right [] = false
any_same right (w ∷ ws) = same (trim w) right || any_same right ws

-- `attr_val.split(',').any(|v| v.trim() == right)`.
unfoldable pub any_part : List ℕ → List ℕ → Bool
unfolding split any_same
any_part right val = any_same right (split val)
