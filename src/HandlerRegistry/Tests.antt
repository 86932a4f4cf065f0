-- ===== src/HandlerRegistry/Tests.antt =====
-- Tests of the handler registry (src/axon_utils/handler_registry.rs).
use rusty_dendrite.Prelude.{ℕ, suc, ◌+◌, String, ◌≡◌, refl, none, some, [], ◌∷◌, or_else}
use rusty_dendrite.Io.{Result, ok, err, message, Io, pure, lift, ◌>>=◌, ◌>>◌}
use rusty_dendrite.Messages.{Bytes}
use rusty_dendrite.HashMap
use rusty_dendrite.HandlerRegistry.{
  SubscriptionHandle, TheHandlerRegistry, get, register, insert, insert_with_output,
  insert_ignoring_output, insert_with_mapped_output,
}
use rusty_dendrite.HandlerRegistry.Lookup.{register_all, first_named, get-register_all}
use rusty_dendrite.HandlerRegistry.Dispatch.{dispatch, map_output, dispatch-inserted}

-- A handler that adds a number to the world, which is a number as well.
abbrev adding : String → ℕ → SubscriptionHandle ℕ String ℕ
adding name n = record { name = name; handle = λ buf projection s. (ok (some n), s + n) }

abbrev registry : TheHandlerRegistry ℕ String ℕ
registry = record { handlers = ("a", adding "a" 1) ∷ [] }

get-register_all_example :
    get (register_all (adding "b" 2 ∷ adding "a" 3 ∷ adding "b" 4 ∷ []) registry) "b"
    ≡ or_else (get registry "b") (first_named "b" (adding "b" 2 ∷ adding "a" 3 ∷ adding "b" 4 ∷ []))
get-register_all_example =
    get-register_all (adding "b" 2 ∷ adding "a" 3 ∷ adding "b" 4 ∷ []) registry "b"

-- The first one counts.
second_registration :
    get (register_all (adding "b" 2 ∷ adding "a" 3 ∷ adding "b" 4 ∷ []) registry) "b"
    ≡ some (adding "b" 2)
unfolding get register HashMap.get HashMap.insert HashMap.contains_key
second_registration = refl

fresh : get registry "b" ≡ none
unfolding get HashMap.get
fresh = refl

abbrev length_of : Bytes → ℕ
length_of [] = 0
length_of (b ∷ buf) = suc (length_of buf)

-- A payload that is empty does not decode.
abbrev decode : Bytes → Result ℕ
decode [] = err (message "empty")
decode (b ∷ buf) = ok (length_of buf)

abbrev counted : ℕ → String → Io ℕ (Unit {0})
counted n projection s = (ok tt, s + n)

-- The length of a type name and an output.
abbrev converted_by : String → ℕ → Result ℕ
converted_by type_name n = ok (suc n)

dispatch-inserted_example :
    (dispatch (insert "b" decode counted registry).1 "b" (7 ∷ 8 ∷ []) "p"
      ≡ some (do payload ← lift (decode (7 ∷ 8 ∷ [])); counted payload "p"; pure none))
    × (dispatch
          (insert_with_output "b" decode (λ n p. pure (some n)) registry).1
          "b"
          (7 ∷ 8 ∷ [])
          "p"
        ≡ some (do payload ← lift (decode (7 ∷ 8 ∷ [])); pure (some payload)))
    × (dispatch
          (insert_ignoring_output "b" decode (λ n p. pure (some n)) registry).1
          "b"
          (7 ∷ 8 ∷ [])
          "p"
        ≡ some (do payload ← lift (decode (7 ∷ 8 ∷ [])); output ← pure (some payload); pure none))
    × (dispatch
          (insert_with_mapped_output "b" decode (λ n p. pure (some n)) "T" converted_by registry).1
          "b"
          (7 ∷ 8 ∷ [])
          "p"
        ≡ some (do
          payload ← lift (decode (7 ∷ 8 ∷ []))
          output ← pure (some payload)
          lift (map_output (converted_by "T") output)))
dispatch-inserted_example =
    dispatch-inserted registry "b" decode (7 ∷ 8 ∷ []) "p" fresh counted (λ n p. pure (some n))
      (λ n p. pure (some n)) "T" converted_by
