-- ===== src/QueryProcessor/Answers.antt =====
-- Which queries the loop of `query_processor` answers, with what, and how it ends
-- (src/axon_utils/query_processor.rs).
use rusty_dendrite.Prelude.{
  String, ◌≡◌, refl, ap, ◌⊎◌, inl, inr, Option, none, some, List, [], ◌∷◌, map, Option-cases,
}
use rusty_dendrite.Io.{Io, Result, ok, err, panicked, message, Error, captured, pure, next, attempt}
use rusty_dendrite.Messages.{SerializedObject}
use rusty_dendrite.Runtime.{item, end_of_stream, failed, Streaming}
use rusty_dendrite.HandlerRegistry
use rusty_dendrite.HandlerRegistry.{TheHandlerRegistry, SubscriptionHandle}
use rusty_dendrite.QueryProcessor.{
  QueryRequest, QueryProviderInbound, InboundRequest, ack, subscription_query_request, query,
  QueryResult, Run, payload_of, handle_query, handle_request, and_then, query_loop, opened,
  query_processor,
}

-- What one message adds to the identifiers of the queries after it.
abbrev pub ids_of : Option InboundRequest → List String → List String
ids_of none ids = ids
ids_of (some ack) ids = ids
ids_of (some subscription_query_request) ids = ids
ids_of (some (query q)) ids = q.message_identifier ∷ ids

-- The identifiers of the queries among the messages of the server, in order.
abbrev pub query_ids : Streaming QueryProviderInbound → List String
query_ids [] = []
query_ids (item inbound ∷ rest) = ids_of inbound.request (query_ids rest)
query_ids (end_of_stream ∷ rest) = query_ids rest
query_ids (failed code ∷ rest) = []

-- The first error of the stream.
abbrev pub first_failure : Streaming QueryProviderInbound → Option String
first_failure [] = none
first_failure (item inbound ∷ rest) = first_failure rest
first_failure (end_of_stream ∷ rest) = first_failure rest
first_failure (failed code ∷ rest) = some code

abbrev pub sent_ids : {S : Type 0} → Run S → List String
sent_ids r = map (λ x. x.message_identifier) r.sent

-- How a loop stands after some messages.
abbrev Answers : {S : Type 0} → Run S → List String → Option String → Type 0
Answers r ids failure =
    (r.returned ≡ none → sent_ids r ≡ ids)
    × ((r.returned ≡ none)
        ⊎ (r.returned ≡ some panicked)
        ⊎ ((code : String) × (failure ≡ some code) × (r.returned ≡ some (err (message code)))))

module _ {S Q : Type 0} (query_context : Q)
    (query_handler_registry : TheHandlerRegistry S Q QueryResult) where
  Answers-result :
      (id : String) (x : Result (Option QueryResult)) (s : S) (rest : S → Run S) (ids : List String)
      (failure : Option String)
      → ((s' : S) → Answers (rest s') ids failure)
      → Answers
          (and_then query_context query_handler_registry
            (next
              (λ result.
                pure (some (record { message_identifier = id; result = payload_of result })))
              (captured x)
              s)
            rest)
          (id ∷ ids)
          failure
  unfolding and_then
  Answers-result id (ok a) s rest ids failure h = (λ e. ap (λ l. id ∷ l) ((h s).0 e), (h s).1)
  Answers-result id (err e) s rest ids failure h = (λ e. ap (λ l. id ∷ l) ((h s).0 e), (h s).1)
  Answers-result id panicked s rest ids failure h = (λ e. cc, inr (inl refl))

  Answers-request :
      (request : Option InboundRequest) (s : S) (rest : S → Run S) (ids : List String)
      (failure : Option String)
      → ((s' : S) → Answers (rest s') ids failure)
      → Answers
          (and_then query_context query_handler_registry
            (handle_request query_context query_handler_registry request s)
            rest)
          (ids_of request ids)
          failure
  unfolding and_then handle_request attempt
  Answers-request none s rest ids failure h = h s
  Answers-request (some ack) s rest ids failure h = h s
  Answers-request (some subscription_query_request) s rest ids failure h = h s
  Answers-request (some (query q)) s rest ids failure h =
      Answers-result q.message_identifier _ _ rest ids failure h

  Answers-loop :
      (messages : Streaming QueryProviderInbound) (s : S)
      → Answers
          (query_loop query_context query_handler_registry messages s)
          (query_ids messages)
          (first_failure messages)
  unfolding query_loop
  Answers-loop [] s = (λ e. refl, inl refl)
  Answers-loop (item inbound ∷ messages) s =
      Answers-request inbound.request s (query_loop query_context query_handler_registry messages)
        (query_ids messages) (first_failure messages) (Answers-loop messages)
  Answers-loop (end_of_stream ∷ messages) s = Answers-loop messages s
  Answers-loop (failed code ∷ messages) s = (λ e. refl, inr (inr (code, refl, refl)))

  Answers-query_processor :
      (open_stream : Io S (Streaming QueryProviderInbound))
      (messages : Streaming QueryProviderInbound) (s s' : S)
      → open_stream s ≡ (ok messages, s')
      → Answers
          (query_processor query_context query_handler_registry open_stream s)
          (query_ids messages)
          (first_failure messages)
  unfolding query_processor opened
  Answers-query_processor open_stream messages s s' opens = rw opens (Answers-loop messages s')

  -- As long as the processor runs it has sent one result for each query among the messages that it
  -- has received on the stream that it has opened, in order and under the identifier of the query.
  pub query_processor_answers :
      (open_stream : Io S (Streaming QueryProviderInbound))
      (messages : Streaming QueryProviderInbound) (s s' : S)
      → open_stream s ≡ (ok messages, s')
      → (query_processor query_context query_handler_registry open_stream s).returned ≡ none
      → sent_ids (query_processor query_context query_handler_registry open_stream s)
        ≡ query_ids messages
  query_processor_answers open_stream messages s s' opens =
      (Answers-query_processor open_stream messages s s' opens).0

  -- Once its stream is open the processor still runs, or it has panicked, or it has returned the
  -- first error of the stream: no error of a handler ends it, and it never returns a success.
  pub query_processor_ends :
      (open_stream : Io S (Streaming QueryProviderInbound))
      (messages : Streaming QueryProviderInbound) (s s' : S)
      → open_stream s ≡ (ok messages, s')
      → let r = query_processor query_context query_handler_registry open_stream s in
        (r.returned ≡ none)
        ⊎ (r.returned ≡ some panicked)
        ⊎ ((code : String) × (first_failure messages ≡ some code)
            × (r.returned ≡ some (err (message code))))
  query_processor_ends open_stream messages s s' opens =
      (Answers-query_processor open_stream messages s s' opens).1

  -- A query whose handler fails, which no handler is registered for, or which has no payload.
  pub data Fails (q : QueryRequest) (s : S) : Type 0 where
    unknown : HandlerRegistry.get query_handler_registry q.query ≡ none → Fails q s
    no_payload : q.payload ≡ none → Fails q s
    by_handler :
        (h : SubscriptionHandle S Q QueryResult) (p : SerializedObject) (e : Error) (s' : S)
        → HandlerRegistry.get query_handler_registry q.query ≡ some h
        → q.payload ≡ some p
        → h.handle p.bytes query_context s ≡ (err e, s')
        → Fails q s

  -- A query that fails is answered: what is sent for it has no payload, as if its handler had
  -- returned `None`, and the error is in no field of it.
  pub query_failures_unreported :
      (q : QueryRequest) (s : S)
      → Fails q s
      → (handle_request query_context query_handler_registry (some (query q)) s).0
        ≡ ok (some (record { message_identifier = q.message_identifier; result = none }))
  unfolding handle_request attempt payload_of handle_query
  query_failures_unreported q s (unknown e) = rw (e, handle_query) refl
  query_failures_unreported q s (no_payload e) =
      elim (Option-cases (HandlerRegistry.get query_handler_registry q.query)) [
        | inl none_found ↦ rw (none_found, handle_query) refl
        | inr (h, found) ↦ rw (found, e, handle_query) refl
      ]
  query_failures_unreported q s (by_handler h p e s' found has fails) =
      rw (found, has, fails, handle_query) refl
