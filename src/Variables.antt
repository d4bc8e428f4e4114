-- ===== src/Variables.antt =====
-- variables.rs: variables, and the keyring that encrypts them. A byte is a number below 256.
pub mod Keyring
use nomad_rs.Base.{
  ℕ, zero, suc, ◌+◌, ◌*◌, ◌/◌, ◌%◌, Bool, true, false, String, List, [], ◌∷◌, map, is_empty, ◌==◌,
  if◌then◌else◌,
}
use nomad_rs.Base.HashMap.{HashMap}
use nomad_rs.Error.{
  config, Result, ok, ◌>>◌, ◌>>=◌, refuse, variable_namespace_empty, variable_path_empty,
  variable_without_items,
}

pub record Variable : Type 0 where
  pub namespace : String
  pub path : String
  pub items : HashMap String

abbrev is_none {ℓ} : {A : Type ℓ} → List A → Bool
is_none [] = true
is_none (x ∷ xs) = false

unfoldable pub validate_variable : Variable → Result (Unit {0})
validate_variable v = do
  refuse (is_empty v.namespace) (config variable_namespace_empty)
  refuse (is_empty v.path) (config variable_path_empty)
  refuse (is_none v.items) (config variable_without_items)

-- The first byte of `STUB_KEY`, the letter n.
abbrev pub key_byte : ℕ
key_byte = 110

-- `^` on the lowest bits, as many as the first argument.
unfoldable pub xor_bits : ℕ → ℕ → ℕ → ℕ
xor_bits zero a b = 0
xor_bits (suc w) a b = (if a % 2 == b % 2 then 0 else 1) + 2 * xor_bits w (a / 2) (b / 2)

-- `^` on `u8`.
unfoldable pub xor_u8 : ℕ → ℕ → ℕ
unfolding xor_bits
xor_u8 a b = xor_bits 8 a b

unfoldable pub encrypt : List ℕ → Result (List ℕ)
unfolding xor_u8
encrypt plaintext = ok (map (λ b. xor_u8 b key_byte) plaintext)

unfoldable pub decrypt : List ℕ → Result (List ℕ)
unfolding xor_u8
decrypt ciphertext = ok (map (λ b. xor_u8 b key_byte) ciphertext)
