-- ===== src/Sample/Encodings.antt =====
-- Encodings of the messages of the greeter, for the tests. A text is the list of its code points.
use Prim.Native.Nat.{Ordering, compare}
use Prim.Native.Char.{Char, char, code, IsLt}
use Prim.Native.String.{[] as empty_text, ◌∷◌ as ◌∷ₜ◌}
use rusty_dendrite.Prelude.{ℕ, String, ◌≡◌, refl, ap, Option, none, some, [], ◌∷◌, map_option}
use rusty_dendrite.Io.{Result, ok, err, panicked, message}
use rusty_dendrite.Messages.{Bytes}
use rusty_dendrite.ExampleCommand.{Greeting, Codecs}
use rusty_dendrite.ExampleCommand.Carries.{AreCodecs}

abbrev Below : Ordering → Ordering → Type 0
Below Ordering.lt o = IsLt o
Below Ordering.eq o = ⊥
Below Ordering.gt o = ⊥

-- What `Prim.Native.Char.IsScalar` says of three comparisons.
abbrev Scalar : Ordering → Ordering → Ordering → Type 0
Scalar Ordering.lt o p = Unit
Scalar Ordering.eq o p = Below o p
Scalar Ordering.gt o p = Below o p

abbrev is_below : (o p : Ordering) → Option (Below o p)
is_below Ordering.lt Ordering.lt = some tt
is_below Ordering.lt Ordering.eq = none
is_below Ordering.lt Ordering.gt = none
is_below Ordering.eq p = none
is_below Ordering.gt p = none

abbrev is_scalar : (o p q : Ordering) → Option (Scalar o p q)
is_scalar Ordering.lt p q = some tt
is_scalar Ordering.eq p q = is_below p q
is_scalar Ordering.gt p q = is_below p q

is_below-some : (o p : Ordering) (x : Below o p) → is_below o p ≡ some x
is_below-some Ordering.lt Ordering.lt x = refl
is_below-some Ordering.lt Ordering.eq x = absurd x
is_below-some Ordering.lt Ordering.gt x = absurd x
is_below-some Ordering.eq p x = absurd x
is_below-some Ordering.gt p x = absurd x

is_scalar-some : (o p q : Ordering) (x : Scalar o p q) → is_scalar o p q ≡ some x
is_scalar-some Ordering.lt p q x = refl
is_scalar-some Ordering.eq p q x = is_below-some p q x
is_scalar-some Ordering.gt p q x = is_below-some p q x

abbrev pub char_of : ℕ → Option Char
char_of n =
    map_option (λ x. char n x) (is_scalar (compare n 55296) (compare 57343 n) (compare n 1114112))

pub char_of-code : (c : Char) → char_of (code c) ≡ some c
char_of-code (char n x) = ap (map_option (λ y. char n y)) (is_scalar-some _ _ _ x)

abbrev pub encode_text : String → Bytes
encode_text empty_text = []
encode_text (c ∷ₜ s) = code c ∷ encode_text s

abbrev consed : Option Char → Result String → Result String
consed (some c) (ok s) = ok (c ∷ₜ s)
consed (some c) (err e) = err e
consed (some c) panicked = panicked
consed none r = err (message "no character")

abbrev pub decode_text : Bytes → Result String
decode_text [] = ok ""
decode_text (n ∷ buf) = consed (char_of n) (decode_text buf)

pub decode_text-encode_text : (s : String) → decode_text (encode_text s) ≡ ok s
decode_text-encode_text empty_text = refl
decode_text-encode_text (c ∷ₜ s) = rw (char_of-code c, decode_text-encode_text s) refl

abbrev greeting_of : Result String → Result (Option Greeting)
greeting_of (ok s) = ok (some (record { message = s }))
greeting_of (err e) = err e
greeting_of panicked = panicked

abbrev pub encode_greeting : Option Greeting → Bytes
encode_greeting none = []
encode_greeting (some g) = 1 ∷ encode_text g.message

abbrev pub decode_greeting : Bytes → Result (Option Greeting)
decode_greeting [] = ok none
decode_greeting (n ∷ buf) = greeting_of (decode_text buf)

decode_greeting-encode_greeting : (m : Option Greeting) → decode_greeting (encode_greeting m) ≡ ok m
decode_greeting-encode_greeting none = refl
decode_greeting-encode_greeting (some g) = ap greeting_of (decode_text-encode_text g.message)

abbrev mapped : {A B : Type 0} → (A → B) → Result A → Result B
mapped f (ok a) = ok (f a)
mapped f (err e) = err e
mapped f panicked = panicked

abbrev pub sample_codecs : Codecs
sample_codecs = record {
  acknowledgement = record {
    encode = λ a. ok (encode_text a.message);
    decode = λ buf. mapped (λ (s : String). record { message = s }) (decode_text buf);
  };
  empty = record { encode = λ _. ok []; decode = λ _. ok tt };
  greet_command = record {
    encode = λ c. ok (encode_greeting c.message);
    decode = λ buf.
        mapped (λ (m : Option Greeting). record { aggregate_identifier = "xxx"; message = m })
          (decode_greeting buf);
  };
  record_command = record {
    encode = λ c. ok (encode_text c.aggregate_identifier);
    decode = λ buf. mapped (λ (s : String). record { aggregate_identifier = s }) (decode_text buf);
  };
  stop_command = record {
    encode = λ c. ok (encode_text c.aggregate_identifier);
    decode = λ buf. mapped (λ (s : String). record { aggregate_identifier = s }) (decode_text buf);
  };
  greeted_event = record {
    encode = λ e. ok (encode_greeting e.message);
    decode = λ buf. mapped (λ (m : Option Greeting). record { message = m }) (decode_greeting buf);
  };
  started_recording_event = record { encode = λ _. ok []; decode = λ _. ok (record {}) };
  stopped_recording_event = record { encode = λ _. ok []; decode = λ _. ok (record {}) };
}

pub sample_codecs-AreCodecs : AreCodecs sample_codecs
sample_codecs-AreCodecs = record {
  acknowledgement = λ a. (_, refl, ap (mapped _) (decode_text-encode_text a.message));
  empty = λ _. (_, refl, refl);
  greeted_event = λ e. (_, refl, ap (mapped _) (decode_greeting-encode_greeting e.message));
  started_recording_event = λ _. (_, refl, refl);
  stopped_recording_event = λ _. (_, refl, refl);
}
