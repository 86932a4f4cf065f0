-- ===== src/EventStore/Query.antt =====
-- What a query of the events of an aggregate returns (src/axon_utils/event_query.rs).
use rusty_dendrite.Prelude.{
  String, ◌≡◌, sym, ◌∙◌, ap, Option, none, some, List, [], ◌∷◌, ◌++◌, map, append_assoc, append-nil,
}
use rusty_dendrite.Io.{Result, ok, err, message}
use rusty_dendrite.Runtime.{Received, item, end_of_stream, failed, Streaming}
use rusty_dendrite.EventStore.{
  Event, EventStoreClient, aggregate_events_request, query_events_from_client, collect,
}

some-injective : {A : Type 0} {a b : A} → some a ≡ some b → a ≡ b
some-injective e = cc

collect-items :
    (acc events : List Event) (rest : Streaming Event)
    → collect acc (map item events ++ rest) ≡ collect (acc ++ events) rest
unfolding collect
collect-items acc [] rest = ap (λ (l : List Event). collect l rest) (sym (append-nil acc))
collect-items acc (event ∷ events) rest =
    collect-items (acc ++ event ∷ []) events rest
    ∙ ap (λ (l : List Event). collect l rest) (append_assoc acc (event ∷ []) events)

module _ {S : Type 0} (client : EventStoreClient S) (id : String) (s s' : S) (events : List Event)
    (rest : Streaming Event) where
  -- When the server streams some events of an aggregate and ends the stream, the query returns just
  -- those events in the order of the stream.
  pub query_events-end_of_stream :
      client.list_aggregate_events (aggregate_events_request id) s
        ≡ (ok (map item events ++ end_of_stream ∷ rest), s')
      → query_events_from_client client id s ≡ (ok events, s')
  unfolding query_events_from_client collect
  query_events-end_of_stream e =
      rw e
        (ap (λ (r : Result (List Event)). (r, s')) (collect-items [] events (end_of_stream ∷ rest)))

  -- When the stream fails, the query is that error, whatever events came before.
  pub query_events-failed :
      (status : String)
      → client.list_aggregate_events (aggregate_events_request id) s
        ≡ (ok (map item events ++ failed status ∷ rest), s')
      → query_events_from_client client id s ≡ (err (message status), s')
  unfolding query_events_from_client collect
  query_events-failed status e =
      rw e
        (ap (λ (r : Result (List Event)). (r, s')) (collect-items [] events (failed status ∷ rest)))

-- What a query is to give for some events that come before the first message that is no event: the
-- events where that is the end of the stream, and otherwise its error.
abbrev pub concluded : List Event → Received Event → Option (Result (List Event))
concluded events end_of_stream = some (ok events)
concluded events (failed status) = some (err (message status))
concluded events (item event) = none

module _ {S : Type 0} (client : EventStoreClient S) where
  -- The first message of the stream that is no event decides on a query, whatever is behind it: at
  -- the end of the stream the query returns just the events before it in their order, and at a
  -- failure it is that error, and the events before it are lost.
  pub query_events-concluded :
      (id : String) (events : List Event) (last : Received Event) (rest : Streaming Event)
      (r : Result (List Event)) (s s' : S)
      → client.list_aggregate_events (aggregate_events_request id) s
        ≡ (ok (map item events ++ last ∷ rest), s')
      → concluded events last ≡ some r
      → query_events_from_client client id s ≡ (r, s')
  query_events-concluded id events end_of_stream rest r s s' e decided =
      query_events-end_of_stream client id s s' events rest e
      ∙ ap (λ (x : Result (List Event)). (x, s')) (some-injective decided)
  query_events-concluded id events (failed status) rest r s s' e decided =
      query_events-failed client id s s' events rest status e
      ∙ ap (λ (x : Result (List Event)). (x, s')) (some-injective decided)
  query_events-concluded id events (item event) rest r s s' e decided = absurd (cc decided)
