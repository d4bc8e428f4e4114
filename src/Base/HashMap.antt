-- ===== src/Base/HashMap.antt =====
-- `std::collections::HashMap` with text keys, as an association list with one entry for a key.
-- Its iteration order is the order of the list.
use mathlib.Core.Path.{◌≡◌, refl, subst}
use mathlib.Core.Logic.{ite, ◌≢◌}
use mathlib.Core.List.{List, [], ◌∷◌, map}
use mathlib.Core.Option.{Option, none, some}
use Prim.Native.String.{String}
use native.Mathlib.Omega.{arith}
use nomad_rs.Base.Lists.{All}
use nomad_rs.Base.Text.{String_discrete}

abbrev pub HashMap {ℓ} : Type ℓ → Type ℓ
HashMap V = List (String × V)

module _ {ℓ} {V : Type ℓ} where
  unfoldable pub get : String → HashMap V → Option V
  get k [] = none
  get k ((j, v) ∷ m) = ite (String_discrete j k) (some v) (get k m)

  -- The old value, if any, is replaced.
  unfoldable pub insert : String → V → HashMap V → HashMap V
  insert k v [] = (k, v) ∷ []
  insert k v ((j, w) ∷ m) = ite (String_discrete j k) ((k, v) ∷ m) ((j, w) ∷ insert k v m)

  unfoldable pub remove : String → HashMap V → HashMap V
  remove k [] = []
  remove k ((j, w) ∷ m) = ite (String_discrete j k) m ((j, w) ∷ remove k m)

  abbrev pub values : HashMap V → List V
  values m = map (λ e. e.1) m

  -- One entry for a key.
  abbrev pub Distinct : HashMap V → Type ℓ
  Distinct [] = Unit
  Distinct ((k, v) ∷ m) = (get k m ≡ none) × Distinct m

  pub get-insert :
      (k j : String) (v : V) (m : HashMap V)
      → get j (insert k v m) ≡ ite (String_discrete k j) (some v) (get j m)
  unfolding get insert
  get-insert k j v [] = refl
  get-insert k j v ((i, w) ∷ m) = ground (arith, get-insert k j v m)

  pub get-insert_self : (k : String) (v : V) (m : HashMap V) → get k (insert k v m) ≡ some v
  get-insert_self k v m = ground (arith, get-insert k k v m)

  pub get-insert_ne :
      (k j : String) (v : V) (m : HashMap V) → k ≢ j → get j (insert k v m) ≡ get j m
  get-insert_ne k j v m h = ground (arith, get-insert k j v m)

  pub get-remove_ne : (k j : String) (m : HashMap V) → k ≢ j → get j (remove k m) ≡ get j m
  unfolding get remove
  get-remove_ne k j [] h = refl
  get-remove_ne k j ((i, w) ∷ m) h = ground (arith, get-remove_ne k j m)

  pub get-remove_self : (k : String) (m : HashMap V) → Distinct m → get k (remove k m) ≡ none
  unfolding get remove
  get-remove_self k [] d = refl
  get-remove_self k ((i, w) ∷ m) d = ground (arith, get-remove_self k m)

  pub insert-Distinct : (k : String) (v : V) (m : HashMap V) → Distinct m → Distinct (insert k v m)
  unfolding get insert
  insert-Distinct k v [] d = (refl, tt)
  insert-Distinct k v ((i, w) ∷ m) d = ground (arith, insert-Distinct k v m d.1, get-insert k i v m)

  pub remove-Distinct : (k : String) (m : HashMap V) → Distinct m → Distinct (remove k m)
  unfolding get remove
  remove-Distinct k [] d = tt
  remove-Distinct k ((i, w) ∷ m) d = ground (arith, remove-Distinct k m d.1, get-remove_ne k i m)

  pub insert-All {κ} :
      (P : String × V → Type κ) (k : String) (v : V) (m : HashMap V)
      → P (k, v)
      → All P m
      → All P (insert k v m)
  unfolding insert
  insert-All P k v [] p h = (p, tt)
  insert-All P k v ((i, w) ∷ m) p h = ground (arith, p, insert-All P k v m p h.1)

  pub remove-All {κ} :
      (P : String × V → Type κ) (k : String) (m : HashMap V) → All P m → All P (remove k m)
  unfolding remove
  remove-All P k [] h = tt
  remove-All P k ((i, w) ∷ m) h = ground (arith, remove-All P k m h.1)

  pub get-All {κ} :
      (P : V → Type κ) (k : String) (v : V) (m : HashMap V)
      → All (λ e. P e.1) m
      → get k m ≡ some v
      → P v
  unfolding get
  get-All P k v [] h e = cc
  get-All P k v ((j, w) ∷ m) h e = elim (String_discrete j k) [
    | yes p ↦ subst P (ground arith) h.0
    | no p ↦ get-All P k v m h.1 (ground arith)
  ]
