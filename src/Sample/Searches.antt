-- ===== src/Sample/Searches.antt =====
-- Encodings of searches and their responses, for the tests: each text ends with a zero.
use Prim.Native.Char.{Char, code}
use Prim.Native.String.{[] as empty_text, ◌∷◌ as ◌∷ₜ◌}
use rusty_dendrite.Prelude.{zero, suc, String, ◌≡◌, refl, ap, Option, none, some, List, [], ◌∷◌}
use rusty_dendrite.Io.{Result, ok, err, panicked, message}
use rusty_dendrite.Messages.{Bytes, Codec}
use rusty_dendrite.ExampleCommand.{Greeting}
use rusty_dendrite.ExampleCommand.Carries.{IsCodec}
use rusty_dendrite.ExampleApi.{SearchQuery, SearchResponse}
use rusty_dendrite.Sample.Encodings.{
  encode_text, decode_text, decode_text-encode_text, char_of, char_of-code,
}

abbrev greeting : String → Greeting
greeting m = record { message = m }

abbrev terminated : String → Bytes → Bytes
terminated empty_text rest = 0 ∷ rest
terminated (c ∷ₜ s) rest = suc (code c) ∷ terminated s rest

abbrev encode_greetings : List Greeting → Bytes
encode_greetings [] = []
encode_greetings (g ∷ gs) = terminated g.message (encode_greetings gs)

abbrev cons_empty : Result (List Greeting) → Result (List Greeting)
cons_empty (ok gs) = ok (greeting "" ∷ gs)
cons_empty (err e) = err e
cons_empty panicked = panicked

abbrev cons_char : Option Char → Result (List Greeting) → Result (List Greeting)
cons_char (some c) (ok (g ∷ gs)) = ok (greeting (c ∷ₜ g.message) ∷ gs)
cons_char (some c) (ok []) = err (message "no end")
cons_char (some c) (err e) = err e
cons_char (some c) panicked = panicked
cons_char none r = err (message "no character")

abbrev decode_greetings : Bytes → Result (List Greeting)
decode_greetings [] = ok []
decode_greetings (zero ∷ buf) = cons_empty (decode_greetings buf)
decode_greetings (suc n ∷ buf) = cons_char (char_of n) (decode_greetings buf)

decode-terminated :
    (m : String) (rest : Bytes) (gs : List Greeting)
    → decode_greetings rest ≡ ok gs
    → decode_greetings (terminated m rest) ≡ ok (greeting m ∷ gs)
decode-terminated empty_text rest gs e = rw e refl
decode-terminated (c ∷ₜ s) rest gs e = rw (char_of-code c, decode-terminated s rest gs e) refl

decode-encode_greetings : (gs : List Greeting) → decode_greetings (encode_greetings gs) ≡ ok gs
decode-encode_greetings [] = refl
decode-encode_greetings (g ∷ gs) =
    decode-terminated g.message (encode_greetings gs) gs (decode-encode_greetings gs)

abbrev response_of : Result (List Greeting) → Result SearchResponse
response_of (ok gs) = ok (record { greetings = gs })
response_of (err e) = err e
response_of panicked = panicked

abbrev query_of : Result String → Result SearchQuery
query_of (ok s) = ok (record { query = s })
query_of (err e) = err e
query_of panicked = panicked

abbrev pub sample_search_response : Codec SearchResponse
sample_search_response = record {
  encode = λ r. ok (encode_greetings r.greetings);
  decode = λ buf. response_of (decode_greetings buf);
}

abbrev pub sample_search_query : Codec SearchQuery
sample_search_query = record {
  encode = λ q. ok (encode_text q.query);
  decode = λ buf. query_of (decode_text buf);
}

pub sample_search_response-IsCodec : IsCodec sample_search_response
sample_search_response-IsCodec r = (_, refl, ap response_of (decode-encode_greetings r.greetings))

pub sample_search_query-IsCodec : IsCodec sample_search_query
sample_search_query-IsCodec q = (_, refl, ap query_of (decode_text-encode_text q.query))
