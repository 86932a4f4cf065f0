-- ===== src/Identifiers.antt =====
-- The identifiers that an output stream draws from `Uuid::new_v4`: the n-th call gives `uuid n`. Each
-- message of the stream has some of its own.
use mathlib.Core.List.{Mem, Nodup, Nodup-cons, Nodup-nil, mem-cons, not-mem-nil}
use mathlib.Core.Logic.Or
use rusty_dendrite.Channel.{drain}
use rusty_dendrite.Prelude.{
  ℕ, zero, suc, ◌+◌, ◌<◌, String, ◌≡◌, refl, sym, subst, ap, ap₂, ◌∙◌, append_assoc, List, [], ◌∷◌,
  ◌++◌, arith,
}

-- Different calls give different identifiers.
abbrev pub IsInjective : (ℕ → String) → Type 0
IsInjective uuid = (i j : ℕ) → uuid i ≡ uuid j → i ≡ j

module _ (uuid : ℕ → String) where
  -- What `k` calls give, from the n-th on.
  unfoldable pub ids_from : ℕ → ℕ → List String
  ids_from n zero = []
  ids_from n (suc k) = uuid n ∷ ids_from (n + 1) k

  pub ids_from-add : (n a b : ℕ) → ids_from n (a + b) ≡ ids_from n a ++ ids_from (n + a) b
  unfolding ids_from
  ids_from-add n zero b = ground arith
  ids_from-add n (suc a) b =
      let e : suc a + b ≡ suc (a + b) = omega arith in
      let e' : n + 1 + a ≡ n + suc a = omega arith in
      ap (ids_from n) e
      ∙ ap (λ l. uuid n ∷ l)
          (ids_from-add (n + 1) a b ∙ ap (λ (m : ℕ). ids_from (n + 1) a ++ ids_from m b) e')

  not-mem-ids_from : IsInjective uuid → (k m n : ℕ) → m < n → ¬ Mem (uuid m) (ids_from n k)
  unfolding ids_from
  not-mem-ids_from inj zero m n h x = not-mem-nil x
  not-mem-ids_from inj (suc k) m n h x =
      Or.elim (λ a b. absurd a) (mem-cons.0 x) (λ e. omega (arith, inj m n e))
        (not-mem-ids_from inj k m (n + 1) (omega arith))

  pub ids_from-Nodup : IsInjective uuid → (k n : ℕ) → Nodup (ids_from n k)
  unfolding ids_from
  ids_from-Nodup inj zero n = Nodup-nil
  ids_from-Nodup inj (suc k) n =
      Nodup-cons.1 (not-mem-ids_from inj k n (n + 1) (omega arith), ids_from-Nodup inj k (n + 1))

module _ {B : Type 0} (own : B → List String) where
  -- The identifiers of some output.
  abbrev pub identifiers_of : List B → List String
  identifiers_of [] = []
  identifiers_of (b ∷ bs) = own b ++ identifiers_of bs

  identifiers_of-append :
      (xs ys : List B) → identifiers_of (xs ++ ys) ≡ identifiers_of xs ++ identifiers_of ys
  identifiers_of-append [] ys = refl
  identifiers_of-append (x ∷ xs) ys =
      rw (identifiers_of-append xs ys) (sym (append_assoc (own x) _ _))

  module _ (uuid : ℕ → String) where
    -- Some output uses just the identifiers that are drawn between two numbers of calls.
    abbrev pub Draws : ℕ → List B → ℕ → Type 0
    Draws n out n' = (k : ℕ) × (n' ≡ n + k) × (identifiers_of out ≡ ids_from uuid n k)

    pub Draws-append :
        (a b c : ℕ) (xs ys : List B) → Draws a xs b → Draws b ys c → Draws a (xs ++ ys) c
    Draws-append a b c xs ys (k, e, ids) (l, e', ids') = (
      k + l,
      omega arith,
      identifiers_of-append xs ys
          ∙ ap₂ (λ p q. p ++ q) ids (ids' ∙ ap (λ n. ids_from uuid n l) e)
          ∙ sym (ids_from-add uuid a k l),
    )

    pub drain-Draws :
        {A V : Type 0} (round : V → A → List B × V) (drawn : V → ℕ)
        → ((v : V) (a : A) → Draws (drawn v) (round v a).0 (drawn (round v a).1))
        → (v : V) (messages : List A)
        → Draws (drawn v) (drain round v messages).0 (drawn (drain round v messages).1)
    unfolding drain ids_from
    drain-Draws round drawn each v [] = (0, omega arith, refl)
    drain-Draws round drawn each v (a ∷ rest) =
        Draws-append _ _ _ _ _ (each v a) (drain-Draws round drawn each (round v a).1 rest)

    -- Where different calls give different identifiers, what is drawn from the start is drawn once.
    pub Draws-Nodup :
        (out : List B) (n : ℕ)
        → IsInjective uuid
        → Draws 0 out n
        → Nodup (identifiers_of out) × ((k : ℕ) × (identifiers_of out ≡ ids_from uuid 0 k))
    Draws-Nodup out n inj (k, e, ids) =
        (subst Nodup (sym ids) (ids_from-Nodup uuid inj k 0), (k, ids))
