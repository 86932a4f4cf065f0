-- ===== src/HashMap.antt =====
-- `std::collections::HashMap` with string keys. The order of the entries is the order in which an
-- iteration meets them; it is left open by what is stated for all maps.
pub mod Order
use rusty_dendrite.Prelude.{
  String, ◌≡◌, refl, Bool, true, false, Option, none, some, List, [], ◌∷◌, arith, ◌==◌, eq_iff,
  if◌then◌else◌, is_some,
}

abbrev pub HashMap {ℓ} : Type ℓ → Type ℓ
HashMap V = List (String × V)

module _ {ℓ} {V : Type ℓ} where
  unfoldable pub get : HashMap V → String → Option V
  get [] k = none
  get ((j, v) ∷ m) k = if j == k then some v else get m k

  unfoldable pub contains_key : HashMap V → String → Bool
  contains_key [] k = false
  contains_key ((j, v) ∷ m) k = if j == k then true else contains_key m k

  unfoldable pub insert : HashMap V → String → V → HashMap V
  insert [] k v = (k, v) ∷ []
  insert ((j, w) ∷ m) k v = if j == k then (j, v) ∷ m else (j, w) ∷ insert m k v

  unfoldable pub keys : HashMap V → List String
  keys [] = []
  keys ((k, v) ∷ m) = k ∷ keys m

  pub get-insert :
      (m : HashMap V) (k j : String) (v : V)
      → get (insert m k v) j ≡ (if k == j then some v else get m j)
  unfolding get insert
  get-insert [] k j v = refl
  get-insert ((i, w) ∷ m) k j v =
      ground (arith, eq_iff k j, eq_iff i k, eq_iff i j, get-insert m k j v)

  pub contains_key-eq : (m : HashMap V) (k : String) → contains_key m k ≡ is_some (get m k)
  unfolding get contains_key
  contains_key-eq [] k = refl
  contains_key-eq ((i, w) ∷ m) k = ground (arith, contains_key-eq m k)

  -- Every key stands once, as in a map of Rust.
  abbrev pub Distinct : HashMap V → Type 0
  Distinct [] = Unit
  Distinct ((k, v) ∷ m) = (contains_key m k ≡ false) × Distinct m
