-- ===== src/QuerySubmit/Collects.antt =====
-- Which responses `submit_query` of src/axon_utils/query_submit.rs collects.
use rusty_dendrite.Prelude.{
  String, ◌≡◌, refl, ap, ◌∙◌, none, some, List, [], ◌∷◌, ◌++◌, append-nil, append_assoc, sym,
}
use rusty_dendrite.Io.{ok}
use rusty_dendrite.Messages.{SerializedObject}
use rusty_dendrite.Runtime.{Runtime, draw_uuid, Received, item, end_of_stream, failed, Streaming}
use rusty_dendrite.QueryProcessor.Output.{QueryResponse}
use rusty_dendrite.QuerySubmit.{QueryServiceClient, request_of, collect_payloads, submit_query}

-- Whether a message of the stream ends the collection.
abbrev pub Ends : Received QueryResponse → Type 0
Ends (item response) = response.payload ≡ none
Ends end_of_stream = Unit
Ends (failed status) = ⊥

-- Responses that carry some payloads, one each.
abbrev pub CarryAll : Streaming QueryResponse → List SerializedObject → Type 0
CarryAll [] [] = Unit
CarryAll [] (payload ∷ payloads) = ⊥
CarryAll (item response ∷ stream) [] = ⊥
CarryAll (item response ∷ stream) (payload ∷ payloads) =
    (response.payload ≡ some payload) × CarryAll stream payloads
CarryAll (end_of_stream ∷ stream) payloads = ⊥
CarryAll (failed status ∷ stream) payloads = ⊥

collect-Ends :
    (acc : List SerializedObject) (last : Received QueryResponse) (rest : Streaming QueryResponse)
    → Ends last
    → collect_payloads acc (last ∷ rest) ≡ ok acc
unfolding collect_payloads
collect-Ends acc (item response) rest h = rw h refl
collect-Ends acc end_of_stream rest h = refl
collect-Ends acc (failed status) rest h = absurd h

collect-CarryAll :
    (acc : List SerializedObject) (stream : Streaming QueryResponse)
    (payloads : List SerializedObject) (last : Received QueryResponse)
    (rest : Streaming QueryResponse)
    → CarryAll stream payloads
    → Ends last
    → collect_payloads acc (stream ++ last ∷ rest) ≡ ok (acc ++ payloads)
unfolding collect_payloads
collect-CarryAll acc [] [] last rest h ends =
    collect-Ends acc last rest ends ∙ ap (λ l. ok l) (sym (append-nil acc))
collect-CarryAll acc [] (payload ∷ payloads) last rest h ends = absurd h
collect-CarryAll acc (end_of_stream ∷ stream) payloads last rest h ends = absurd h
collect-CarryAll acc (failed status ∷ stream) payloads last rest h ends = absurd h
collect-CarryAll acc (item response ∷ stream) [] last rest h ends = absurd h
collect-CarryAll acc (item response ∷ stream) (payload ∷ payloads) last rest h ends = rw h.0 (
    collect-CarryAll (acc ++ payload ∷ []) stream payloads last rest h.1 ends
    ∙ ap (λ l. ok l) (append_assoc acc (payload ∷ []) payloads))

module _ {S : Type 0} (rt : Runtime S) (client : QueryServiceClient S) where
  -- The query is answered by the payloads of the responses in their order, up to the end of the
  -- stream or to the first response with no payload; what comes behind such a response is not read.
  pub submit_query_collects :
      (client_id : String) (serialized : SerializedObject) (stream : Streaming QueryResponse)
      (payloads : List SerializedObject) (last : Received QueryResponse)
      (rest : Streaming QueryResponse) (s s' : S)
      → client.query (request_of client_id (rt.new_v4 s).0 serialized) (rt.new_v4 s).1
        ≡ (ok (stream ++ last ∷ rest), s')
      → CarryAll stream payloads
      → Ends last
      → submit_query rt client client_id serialized s ≡ (ok payloads, s')
  unfolding submit_query draw_uuid
  submit_query_collects client_id serialized stream payloads last rest s s' e h ends =
      rw (e, collect-CarryAll [] stream payloads last rest h ends) refl
