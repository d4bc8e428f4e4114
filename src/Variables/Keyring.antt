-- ===== src/Variables/Keyring.antt =====
-- variables.rs: decryption after encryption.
use nomad_rs.Base.{
  ℕ, zero, suc, ◌+◌, ◌*◌, ◌/◌, ◌%◌, ◌^◌, ◌<◌, ◌≡◌, refl, ap, ◌∙◌, List, [], ◌∷◌, map, All, arith,
  ◌==◌, if◌then◌else◌,
}
use nomad_rs.Error.{ok, ◌>>=◌}
use nomad_rs.Variables.{xor_bits, xor_u8, key_byte, encrypt, decrypt}

pow_suc : (w : ℕ) → 2 ^ (suc w) ≡ 2 * 2 ^ w
pow_suc w = omega arith

xor_bits_below : (w a b : ℕ) → xor_bits w a b < 2 ^ w
unfolding xor_bits
xor_bits_below zero a b = omega arith
xor_bits_below (suc w) a b = ground (arith, xor_bits_below w (a / 2) (b / 2), pow_suc w)

-- The lowest bit of the xor, and the rest.
xor_bit : ℕ → ℕ → ℕ
xor_bit a b = if a % 2 == b % 2 then 0 else 1

xor_bit_small : (a b : ℕ) → xor_bit a b < 2
unfolding xor_bit
xor_bit_small a b = ground arith

xor_bit_twice : (a b r : ℕ) → xor_bit (xor_bit a b + 2 * r) b ≡ a % 2
unfolding xor_bit
xor_bit_twice a b r = ground arith

half : (c r : ℕ) → c < 2 → (c + 2 * r) / 2 ≡ r
half c r h = omega arith

xor_bits_twice : (w a b : ℕ) → a < 2 ^ w → xor_bits w (xor_bits w a b) b ≡ a
unfolding xor_bits xor_bit
xor_bits_twice zero a b h = omega arith
xor_bits_twice (suc w) a b h =
    let r = xor_bits w (a / 2) (b / 2) in
    let again : xor_bits w ((xor_bit a b + 2 * r) / 2) (b / 2) ≡ a / 2 =
      ap (λ x. xor_bits w x (b / 2)) (half (xor_bit a b) r (xor_bit_small a b))
      ∙ xor_bits_twice w (a / 2) (b / 2) (omega (arith, h, pow_suc w)) in
    ap (λ x. xor_bit (xor_bit a b + 2 * r) b + 2 * x) again
    ∙ ap (λ x. x + 2 * (a / 2)) (xor_bit_twice a b r)
    ∙ omega arith

-- Bytes.
abbrev pub IsBytes : List ℕ → Type 0
IsBytes bs = All (λ b. b < 256) bs

module _ (k : ℕ) where
  map_twice : (bs : List ℕ) → IsBytes bs → map (λ b. xor_u8 b k) (map (λ b. xor_u8 b k) bs) ≡ bs
  unfolding xor_u8
  map_twice [] h = refl
  map_twice (b ∷ bs) h =
      ap (λ x. x ∷ map (λ c. xor_bits 8 c k) (map (λ c. xor_bits 8 c k) bs))
        (xor_bits_twice 8 b k (omega (arith, h.0)))
      ∙ ap (◌∷◌ b) (map_twice bs h.1)

  map-IsBytes : (bs : List ℕ) → IsBytes (map (λ b. xor_u8 b k) bs)
  unfolding xor_u8
  map-IsBytes [] = tt
  map-IsBytes (b ∷ bs) = (omega (arith, xor_bits_below 8 b k), map-IsBytes bs)

-- What `encrypt` makes of bytes, `decrypt` turns back into them.
pub decrypt-encrypt :
    (plaintext : List ℕ)
    → IsBytes plaintext
    → ((encrypt plaintext >>= λ c. decrypt c) ≡ ok plaintext)
unfolding encrypt decrypt
decrypt-encrypt bs h = ap (λ x. ok x) (map_twice key_byte bs h)
