-- ===== src/HashMap/Order.antt =====
-- What the order of the entries of a `std::collections::HashMap` has no part in.
use mathlib.Core.List.{Permᴰ}
use rusty_dendrite.Prelude.{
  String, ◌≡◌, refl, sym, subst, ap, ap₂, ◌∙◌, true, false, some, ◌∷◌, arith, ◌==◌, eq_iff,
  if◌then◌else◌,
}
use rusty_dendrite.HashMap.{HashMap, get, contains_key, Distinct}

module _ {ℓ} {V : Type ℓ} where
  contains_key-Permᴰ :
      {m n : HashMap V} (k : String) → Permᴰ m n → contains_key m k ≡ contains_key n k
  unfolding contains_key
  contains_key-Permᴰ k Permᴰ.nil = refl
  contains_key-Permᴰ k (Permᴰ.cons {b = b} e p) =
      rw e (ap (λ r. if b.0 == k then true else r) (contains_key-Permᴰ k p))
  contains_key-Permᴰ k (Permᴰ.swap e f) = rw (e, f) (ground arith)
  contains_key-Permᴰ k (Permᴰ.trans p q) = contains_key-Permᴰ k p ∙ contains_key-Permᴰ k q

  Distinct-swap : (x y : String × V) (m : HashMap V) → Distinct (x ∷ y ∷ m) → Distinct (y ∷ x ∷ m)
  unfolding contains_key
  Distinct-swap x y m (new, (new', d)) =
      (ground (arith, eq_iff x.0 y.0, eq_iff y.0 x.0), (ground arith, d))

  pub Distinct-Permᴰ : {m n : HashMap V} → Permᴰ m n → Distinct m → Distinct n
  Distinct-Permᴰ Permᴰ.nil d = d
  Distinct-Permᴰ (Permᴰ.cons {b = b} {l₁ = l} e p) (new, d) = (
    sym (contains_key-Permᴰ b.0 p) ∙ subst (λ (x : String × V). contains_key l x.0 ≡ false) e new,
    Distinct-Permᴰ p d,
  )
  Distinct-Permᴰ (Permᴰ.swap {a} {b} {a'} {b'} {l} e f) d =
      subst (λ x. Distinct (x ∷ b' ∷ l)) f
        (subst (λ x. Distinct (b ∷ x ∷ l)) e (Distinct-swap a b l d))
  Distinct-Permᴰ (Permᴰ.trans p q) d = Distinct-Permᴰ q (Distinct-Permᴰ p d)

  get-swap :
      (x y : String × V) (m : HashMap V) (k : String)
      → Distinct (x ∷ y ∷ m)
      → get (x ∷ y ∷ m) k ≡ get (y ∷ x ∷ m) k
  unfolding get contains_key
  get-swap x y m k (new, d) = ground (arith, eq_iff x.0 k, eq_iff y.0 k, eq_iff y.0 x.0)

  pub get-Permᴰ : {m n : HashMap V} (k : String) → Permᴰ m n → Distinct m → get m k ≡ get n k
  unfolding get contains_key
  get-Permᴰ k Permᴰ.nil d = refl
  get-Permᴰ k (Permᴰ.cons {b = b} e p) d =
      rw e (ap (λ r. if b.0 == k then some b.1 else r) (get-Permᴰ k p d.1))
  get-Permᴰ k (Permᴰ.swap {a} {b} {a'} {b'} {l} e f) d =
      get-swap a b l k d ∙ ap₂ (λ x y. get (x ∷ y ∷ l) k) f e
  get-Permᴰ k (Permᴰ.trans p q) d = get-Permᴰ k p d ∙ get-Permᴰ k q (Distinct-Permᴰ p d)
