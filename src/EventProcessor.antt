-- ===== src/EventProcessor.antt =====
-- src/axon_utils/event_processor.rs: the tracking event processor and its stream of requests.
pub mod Tokens
pub mod Tracking
pub mod Rounds
pub mod Restart
pub mod Requests
pub mod Outstanding
mod Tests
use rusty_dendrite.Prelude.{ℕ, String, Bool, true, false, Option, none, some, List, [], ◌∷◌}
use rusty_dendrite.Prelude.Int.{ℤ, pos, negsuc, ◌+i64◌}
use rusty_dendrite.Io.{
  Result, ok, err, panicked, Error, message, Outcome, done, raised, Io, pure, attempt, ◌>>=◌, ◌>>◌,
}
use rusty_dendrite.Messages.{SerializedObject}
use rusty_dendrite.HandlerRegistry
use rusty_dendrite.HandlerRegistry.{TheHandlerRegistry}
use rusty_dendrite.EventStore.{Event}
use rusty_dendrite.Channel.{drain}
use rusty_dendrite.Permits.{initial_permits, permits_batch_size, settle}

pub record EventWithToken : Type 0 where
  pub token : ℤ
  pub event : Option Event

-- What the loop meets, call by call: what `message` returns (a message, the end of the stream or an
-- error), and, for a message whose event comes to be reported, whether the channel still has its
-- receiver then: it has for `item`, and for `unheard` the stream of requests, which owns the receiver,
-- was dropped.
pub data Met : Type 0 where
  item unheard : EventWithToken → Met
  end_of_stream : Met
  failed : String → Met

abbrev pub Events : Type 0
Events = List Met

-- The error of a send to a channel that has lost its receiver.
abbrev pub hung_up : Error
hung_up = message "channel closed"

-- The black list, which is always empty, is left out.
pub record GetEventsRequest : Type 0 where
  pub tracking_token : ℤ
  pub number_of_permits : ℤ
  pub client_id : String
  pub component_name : String
  pub processor : String
  pub force_read_from_leader : Bool

pub record AxonEventProcessed : Type 0 where
  pub message_identifier : String

-- The trait `TokenStore`, of a query model of the application.
pub record TokenStore (S : Type 0) : Type 0 where
  pub store_token : ℤ → S → S
  pub retrieve_token : Io S ℤ

-- How a run stands: the events that were reported as processed, the result of the function if it has
-- returned, and the world.
pub record Run (S : Type 0) : Type 0 where
  pub processed : List AxonEventProcessed
  pub returned : Option (Result (Unit {0}))
  pub world : S

-- `r.unwrap_or(-1) + 1`.
unfoldable pub token_after : Outcome ℤ → ℤ
token_after (done token) = token +i64 pos 1
token_after (raised e) = negsuc 0 +i64 pos 1

module _ {S : Type 0} where
  -- The token from which the events are requested.
  unfoldable pub initial_token : TokenStore S → Io S ℤ
  unfolding token_after
  initial_token query_model = do
    retrieved ← attempt query_model.retrieve_token
    pure (token_after retrieved)

module _ {S Q : Type 0} (tokens : TokenStore S) (query_model : Q)
    (event_handler_registry : TheHandlerRegistry S Q (Option Q)) where
  -- An event of a type with no handler is passed over.
  pub handle_payload : Option SerializedObject → Io S (Unit {0})
  handle_payload none = pure tt
  handle_payload (some serialized_object) =
      elim (HandlerRegistry.get event_handler_registry serialized_object.type) [
        | none ↦ pure tt
        | some event_handler ↦ do
          _ ← event_handler.handle serialized_object.bytes query_model
          pure tt
      ]

  -- An event is handled and its token is stored, and there is a report to be sent: `and_then` is the
  -- round where the report is received, and `unheard_and` the one where it is not.
  process_event : ℤ → Event → Io S AxonEventProcessed
  process_event token event = do
    handle_payload event.payload
    λ s. (ok (record { message_identifier = event.message_identifier }), tokens.store_token token s)

  -- One round of the loop for an event that is reported, and the rounds after it.
  and_then : Result AxonEventProcessed × S → (S → Run S) → Run S
  and_then (ok processed, s) rest = record {
    processed = processed ∷ (rest s).processed;
    returned = (rest s).returned;
    world = (rest s).world;
  }
  and_then (err e, s) rest = record { processed = []; returned = some (err e); world = s }
  and_then (panicked, s) rest = record { processed = []; returned = some panicked; world = s }

  round : EventWithToken → S → (S → Run S) → Run S
  round event_with_token s rest = elim event_with_token.event [
    | none ↦ rest s
    | some event ↦ and_then (process_event event_with_token.token event s) rest
  ]

  -- The end of a round whose event cannot be reported: its token is stored already.
  unheard_and : Result AxonEventProcessed × S → Run S
  unheard_and (ok processed, s) = record {
    processed = [];
    returned = some (err hung_up);
    world = s;
  }
  unheard_and (err e, s) = record { processed = []; returned = some (err e); world = s }
  unheard_and (panicked, s) = record { processed = []; returned = some panicked; world = s }

  unheard_round : EventWithToken → S → (S → Run S) → Run S
  unheard_round event_with_token s rest = elim event_with_token.event [
    | none ↦ rest s
    | some event ↦ unheard_and (process_event event_with_token.token event s)
  ]

  pub event_loop : Events → S → Run S
  event_loop [] s = record { processed = []; returned = none; world = s }
  event_loop (item event_with_token ∷ messages) s = round event_with_token s (event_loop messages)
  event_loop (unheard event_with_token ∷ messages) s =
      unheard_round event_with_token s (event_loop messages)
  event_loop (end_of_stream ∷ messages) s = event_loop messages s
  event_loop (failed status ∷ messages) s = record {
    processed = [];
    returned = some (err (message status));
    world = s;
  }

  opened : Result Events × S → Run S
  opened (ok messages, s) = event_loop messages s
  opened (err e, s) = record { processed = []; returned = some (err e); world = s }
  opened (panicked, s) = record { processed = []; returned = some panicked; world = s }

  -- `list_events` is the call of the generated client with the stream of requests from a token.
  pub event_processor : (ℤ → Io S Events) → S → Run S
  event_processor list_events s = opened ((do token ← initial_token tokens; list_events token) s)

-- The request that is sent again for each batch of permits.
unfoldable pub events_request : String → ℤ → ℤ → GetEventsRequest
events_request client_id token permits = record {
  tracking_token = token;
  number_of_permits = permits;
  client_id = client_id;
  component_name = "Dendrite";
  processor = "Event Processor";
  force_read_from_leader = false;
}

module _ (client_id : String) (token : ℤ) where
  requested : Bool × ℤ → List GetEventsRequest × ℤ
  requested (true, permits) = (events_request client_id token permits_batch_size ∷ [], permits)
  requested (false, permits) = ([], permits)

  -- One round of the loop over the processed events.
  unfoldable pub request_more : ℤ → AxonEventProcessed → List GetEventsRequest × ℤ
  unfolding requested
  request_more permits processed = requested (settle permits)

  -- All that is yielded for some processed events.
  unfoldable pub create_output_stream : List AxonEventProcessed → List GetEventsRequest
  create_output_stream processed =
      events_request client_id token initial_permits
      ∷ (drain request_more initial_permits processed).0
