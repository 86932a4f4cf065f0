-- ===== src/QueryProcessor.antt =====
-- src/axon_utils/query_processor.rs: the loop that handles queries. The messages are those of
-- proto/axon_server/query.proto; the maps of meta data and the processing instructions, which are
-- always empty, are left out. The runs are those in which the channel has its
-- receiver, and the panic of a send without one is left out.
pub mod Output
pub mod Answers
pub mod Requests
mod Tests
use rusty_dendrite.Prelude.{String, Option, none, some, List, [], ◌∷◌, map_option, flatten}
use rusty_dendrite.Prelude.Int.{ℤ}
use rusty_dendrite.Io.{
  Result, ok, err, panicked, message, Outcome, done, raised, Io, pure, attempt, ◌>>=◌,
}
use rusty_dendrite.Messages.{SerializedObject}
use rusty_dendrite.Runtime.{item, end_of_stream, failed, Streaming}
use rusty_dendrite.HashMap
use rusty_dendrite.HandlerRegistry
use rusty_dendrite.HandlerRegistry.{TheHandlerRegistry}

pub record QueryRequest : Type 0 where
  pub message_identifier : String
  pub query : String
  pub timestamp : ℤ
  pub payload : Option SerializedObject
  pub response_type : Option SerializedObject
  pub client_id : String
  pub component_name : String

-- Acknowledgements and subscription queries are not read by the program.
pub data InboundRequest : Type 0 where
  ack subscription_query_request : InboundRequest
  query : QueryRequest → InboundRequest

pub record QueryProviderInbound : Type 0 where
  pub instruction_id : String
  pub request : Option InboundRequest

pub record QueryResult : Type 0 where
  pub payload : Option SerializedObject

pub record AxonQueryResult : Type 0 where
  pub message_identifier : String
  pub result : Option SerializedObject

pub record Run (S : Type 0) : Type 0 where
  pub sent : List AxonQueryResult
  pub returned : Option (Result (Unit {0}))
  pub world : S

-- `result.unwrap_or(None).map(|query_result| query_result.payload).flatten()`.
payload_of : Outcome (Option QueryResult) → Option SerializedObject
payload_of (done result) = flatten (map_option (λ r. r.payload) result)
payload_of (raised e) = none

module _ {S Q : Type 0} (query_context : Q)
    (query_handler_registry : TheHandlerRegistry S Q QueryResult) where
  -- The two nested `if let`s: a query with no handler or no payload has the error with which `result`
  -- begins.
  handle_query : QueryRequest → Io S (Option QueryResult)
  handle_query q = elim (HandlerRegistry.get query_handler_registry q.query) [
    | none ↦ λ s. (err (message "Could not find aggregate handler"), s)
    | some query_handle ↦ elim q.payload [
      | none ↦ λ s. (err (message "Could not find aggregate handler"), s)
      | some serialized_object ↦ query_handle.handle serialized_object.bytes query_context
    ]
  ]

  pub handle_request : Option InboundRequest → Io S (Option AxonQueryResult)
  handle_request (some (query q)) = do
    result ← attempt (handle_query q)
    pure (some (record { message_identifier = q.message_identifier; result = payload_of result }))
  handle_request (some ack) = pure none
  handle_request (some subscription_query_request) = pure none
  handle_request none = pure none

  -- One round of the loop, and the rounds after it.
  and_then : Result (Option AxonQueryResult) × S → (S → Run S) → Run S
  and_then (ok none, s) rest = rest s
  and_then (ok (some result), s) rest = record {
    sent = result ∷ (rest s).sent;
    returned = (rest s).returned;
    world = (rest s).world;
  }
  and_then (err e, s) rest = record { sent = []; returned = some (err e); world = s }
  and_then (panicked, s) rest = record { sent = []; returned = some panicked; world = s }

  pub query_loop : Streaming QueryProviderInbound → S → Run S
  query_loop [] s = record { sent = []; returned = none; world = s }
  query_loop (item inbound ∷ messages) s =
      and_then (handle_request inbound.request s) (query_loop messages)
  query_loop (end_of_stream ∷ messages) s = query_loop messages s
  query_loop (failed code ∷ messages) s = record {
    sent = [];
    returned = some (err (message code));
    world = s;
  }

  opened : Result (Streaming QueryProviderInbound) × S → Run S
  opened (ok messages, s) = query_loop messages s
  opened (err e, s) = record { sent = []; returned = some (err e); world = s }
  opened (panicked, s) = record { sent = []; returned = some panicked; world = s }

  -- `open_stream` is the call of the generated client, with the output stream as its argument.
  pub query_processor : Io S (Streaming QueryProviderInbound) → S → Run S
  query_processor open_stream s = opened (open_stream s)

-- The names that the processor subscribes to.
unfoldable pub subscribed : {S Q : Type 0} → TheHandlerRegistry S Q QueryResult → List String
subscribed query_handler_registry = HashMap.keys query_handler_registry.handlers
