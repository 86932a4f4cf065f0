-- ===== src/Io.antt =====
-- Results and effects: `anyhow::Result` with its errors, panics, and asynchronous calls that
-- change the world outside the program.
use rusty_dendrite.Prelude.{String, ◌<>◌, ◌≡◌, refl, Option, none, some, fun_ext}

-- An `anyhow::Error`: `anyhow!(text)`, `anyhow!("text {:?}", name)`, and `.context(text)`.
pub data Error : Type 0 where
  message : String → Error
  about : String → String → Error
  context : String → Error → Error

-- `e.to_string()`. The `{:?}` format of a string, with its Unicode tables, is a parameter.
unfoldable pub to_string : (String → String) → Error → String
to_string debug (message text) = text
to_string debug (about text name) = text <> debug name
to_string debug (context text e) = text

-- `panicked` is the end of the task that calls `unwrap` on an error.
pub data Result {ℓ} (A : Type ℓ) : Type ℓ where
  ok : A → Result A
  err : Error → Result A
  panicked : Result A

-- A call made in a world of type `S` that it may change, also where it fails.
abbrev pub Io {ℓ} : Type 0 → Type ℓ → Type ℓ
Io S A = S → Result A × S

module _ {ℓ} {S : Type 0} {A : Type ℓ} where
  abbrev pub pure : A → Io S A
  pure a s = (ok a, s)

  -- A computation with no effect, `?` included.
  abbrev pub lift : Result A → Io S A
  lift r s = (r, s)

module _ {ℓ} {A : Type ℓ} where
  -- `o.ok_or(e)`.
  abbrev pub ok_or : Option A → Error → Result A
  ok_or none e = err e
  ok_or (some a) e = ok a

  -- `r.unwrap()`.
  abbrev pub unwrap : Result A → Result A
  unwrap (ok a) = ok a
  unwrap (err e) = panicked
  unwrap panicked = panicked

  -- `r.context(text)`.
  abbrev pub with_context : Result A → String → Result A
  with_context (ok a) text = ok a
  with_context (err e) text = err (context text e)
  with_context panicked text = panicked

module _ {ℓ κ} {S : Type 0} {A : Type ℓ} {B : Type κ} where
  abbrev pub next : (A → Io S B) → Result A → Io S B
  next f (ok a) s = f a s
  next f (err e) s = (err e, s)
  next f panicked s = (panicked, s)

  infixl 5 ◌>>=◌
  -- `let a = m.await?;` and the rest.
  abbrev pub ◌>>=◌ : Io S A → (A → Io S B) → Io S B
  ◌>>=◌ m f s = next f (m s).0 (m s).1

infixl 5 ◌>>◌
abbrev pub ◌>>◌ {ℓ} : {S : Type 0} {B : Type ℓ} → Io S (Unit {0}) → Io S B → Io S B
m >> n = m >>= λ _. n

next_assoc {ℓ κ μ} :
    {S : Type 0} {A : Type ℓ} {B : Type κ} {C : Type μ} (r : Result A) (f : A → Io S B)
    (g : B → Io S C) (s : S)
    → (next f r >>= g) s ≡ next (λ a. f a >>= g) r s
next_assoc (ok a) f g s = refl
next_assoc (err e) f g s = refl
next_assoc panicked f g s = refl

pub bind_assoc {ℓ κ μ} :
    {S : Type 0} {A : Type ℓ} {B : Type κ} {C : Type μ} (m : Io S A) (f : A → Io S B)
    (g : B → Io S C)
    → (m >>= f >>= g) ≡ (m >>= λ a. f a >>= g)
bind_assoc m f g = fun_ext λ s. next_assoc (m s).0 f g (m s).1

next-pure {ℓ} : {S : Type 0} {A : Type ℓ} (r : Result A) (s : S) → next pure r s ≡ (r, s)
next-pure (ok a) s = refl
next-pure (err e) s = refl
next-pure panicked s = refl

pub bind-pure {ℓ} : {S : Type 0} {A : Type ℓ} (m : Io S A) → (m >>= pure) ≡ m
bind-pure m = fun_ext λ s. next-pure (m s).0 (m s).1

-- The value of a call that is kept and not passed on by `?`.
pub data Outcome (A : Type 0) : Type 0 where
  done : A → Outcome A
  raised : Error → Outcome A

abbrev pub captured : {A : Type 0} → Result A → Result (Outcome A)
captured (ok a) = ok (done a)
captured (err e) = ok (raised e)
captured panicked = panicked

-- `let r = m.await;`. A panic is no value.
unfoldable pub attempt : {S A : Type 0} → Io S A → Io S (Outcome A)
attempt m s = (captured (m s).0, (m s).1)

pub next-pure_world {ℓ κ} :
    {S : Type 0} {A : Type ℓ} {B : Type κ} (b : B) (r : Result A) (s : S)
    → (next (λ _. pure {S = S} b) r s).1 ≡ s
next-pure_world b (ok a) s = refl
next-pure_world b (err e) s = refl
next-pure_world b panicked s = refl
