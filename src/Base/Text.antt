-- ===== src/Base/Text.antt =====
-- Equality of texts as a decision and as a Boolean test, and the decimal numerals of `format!`.
use Prim.Native.Nat.{ℕ, zero, suc, ◌+◌, ◌-◌, ◌*◌, ◌/◌, ◌%◌, ◌<◌}
use Prim.Native.String.{String, ◌++◌}
use mathlib.Core.Path.{◌≡◌, refl, sym, ap, ◌∙◌}
use mathlib.Core.Bool.{Bool, true, false}
use mathlib.Core.Logic.{◌≢◌, inl, inr}
use Prim.Native.Char.{code}
use text.Mathlib.TextLemmas.{
  nil-append, cons-append, append_cancel_left, append-ne-nil_of_right_ne-nil, append-eq-nil_iff,
  cons-ne-nil,
}
use native.Mathlib.Omega.{arith}
use text.Mathlib.Text.{◌==◌ as same_text}
use nomad_rs.Base.Tests.{ltb, ltb→lt, Bool-cases, ◌==◌, if◌then◌else◌}
use text.Mathlib.TextEquality.{eq_iff}

decide_eq : (s t : String) (b : Bool) → (same_text s t) ≡ b → Dec (s ≡ t)
decide_eq s t true e = yes ((eq_iff s t).0 e)
decide_eq s t false e = no (λ p. ground (arith, (eq_iff s t).1 p))

unfoldable pub String_discrete : Discrete String
unfolding decide_eq
String_discrete s t = decide_eq s t (same_text s t) refl

-- `==` on `String`, `&str` and the id newtypes.
abbrev pub str_eq : String → String → Bool
str_eq s t = elim (String_discrete s t) [ yes p ↦ true | no p ↦ false ]

-- `is_empty`.
abbrev pub is_empty : String → Bool
is_empty s = str_eq s ""

-- The ids of the scheduler's allocations: `format!("{}-{}", id, n)`.
digit : ℕ → String
digit d =
    if d == 0
    then "0"
    else (if d == 1
        then "1"
        else (if d == 2
            then "2"
            else (if d == 3
                then "3"
                else (if d == 4
                    then "4"
                    else (if d == 5
                        then "5"
                        else (if d == 6
                            then "6"
                            else (if d == 7 then "7" else (if d == 8 then "8" else "9"))))))))

-- The decimal numeral of `n`; fuel above `n` is enough.
decimal_from : ℕ → ℕ → String
unfolding digit
decimal_from zero n = ""
decimal_from (suc fuel) n =
    let rest = decimal_from fuel (n / 10) ++ digit (n % 10) in if ltb n 10 then digit n else rest

unfoldable pub decimal : ℕ → String
unfolding decimal_from
decimal n = decimal_from (suc n) n

unfoldable pub alloc_name : String → ℕ → String
unfolding decimal
alloc_name id n = id ++ ("-" ++ decimal n)

pub str_eq_refl : (s : String) → str_eq s s ≡ true
str_eq_refl s = ground arith

pub str_eq_ne : (s t : String) → s ≢ t → str_eq s t ≡ false
str_eq_ne s t h = ground arith

pub str_eq→eq : (s t : String) → str_eq s t ≡ true → s ≡ t
str_eq→eq s t h = ground arith

-- The value of a run of digits, lowest last, after `acc`.
value_from : ℕ → String → ℕ
value_from acc String.[] = acc
value_from acc (String.◌∷◌ c s) = value_from (acc * 10 + (code c - b'0')) s

value_from-append :
    (acc : ℕ) (s t : String) → value_from acc (s ++ t) ≡ value_from (value_from acc s) t
unfolding value_from
value_from-append acc String.[] t = ap (value_from acc) (nil-append t)
value_from-append acc (String.◌∷◌ c s) t =
    ap (value_from acc) (cons-append c s t) ∙ value_from-append (acc * 10 + (code c - b'0')) s t

value-digit : (acc d : ℕ) → d < 10 → value_from acc (digit d) ≡ acc * 10 + d
unfolding value_from digit
value-digit acc zero h = omega arith
value-digit acc (suc zero) h = omega arith
value-digit acc (suc (suc zero)) h = omega arith
value-digit acc (suc (suc (suc zero))) h = omega arith
value-digit acc (suc (suc (suc (suc zero)))) h = omega arith
value-digit acc (suc (suc (suc (suc (suc zero))))) h = omega arith
value-digit acc (suc (suc (suc (suc (suc (suc zero)))))) h = omega arith
value-digit acc (suc (suc (suc (suc (suc (suc (suc zero))))))) h = omega arith
value-digit acc (suc (suc (suc (suc (suc (suc (suc (suc zero)))))))) h = omega arith
value-digit acc (suc (suc (suc (suc (suc (suc (suc (suc (suc zero))))))))) h = omega arith
value-digit acc (suc (suc (suc (suc (suc (suc (suc (suc (suc (suc d)))))))))) h =
    absurd (omega arith)

-- With enough fuel the numeral reads back.
value-decimal : (fuel n : ℕ) → n < fuel → value_from 0 (decimal_from fuel n) ≡ n
unfolding decimal_from
value-decimal zero n h = elim h [ ]
value-decimal (suc fuel) n h = elim (Bool-cases (ltb n 10)) [
  | inl e ↦ rw e (value-digit 0 n (ltb→lt n 10 e) ∙ omega arith)
  | inr e ↦ rw e (
      value_from-append 0 (decimal_from fuel (n / 10)) (digit (n % 10))
      ∙ value-digit _ (n % 10) (omega arith)
      ∙ omega (arith, value-decimal fuel (n / 10) (ground arith)))
]

-- Names of one evaluation's allocations differ.
pub alloc_name-injective : (id : String) (m n : ℕ) → alloc_name id m ≡ alloc_name id n → m ≡ n
unfolding alloc_name
alloc_name-injective id m n e =
    sym (value-decimal (suc m) m (omega arith))
    ∙ ap (value_from 0) (append_cancel_left "-" _ _ (append_cancel_left id _ _ e))
    ∙ value-decimal (suc n) n (omega arith)

dash-ne-empty : (s : String) → "-" ++ s ≢ ""
dash-ne-empty s e = cons-ne-nil _ _ ((append-eq-nil_iff {p = "-"} {q = s}).0 e).0

pub alloc_name-ne-empty : (id : String) (n : ℕ) → alloc_name id n ≢ ""
unfolding alloc_name
alloc_name-ne-empty id n = append-ne-nil_of_right_ne-nil id (dash-ne-empty (decimal n))
