-- ===== src/CommandWorker/Aggregate.antt =====
-- Aggregates and the handling of one command: `AggregateDefinition` and `handle_command` of src/axon_utils/command_worker.rs.
use rusty_dendrite.Prelude.{String, Option, none, some, List, [], ◌∷◌, map_option}
use rusty_dendrite.Io.{err, message, about, Io, pure, lift, ok_or, ◌>>=◌, ◌>>◌}
use rusty_dendrite.Messages.{Bytes, SerializedObject}
use rusty_dendrite.Runtime.{Runtime}
use rusty_dendrite.HashMap
use rusty_dendrite.HandlerRegistry
use rusty_dendrite.HandlerRegistry.{TheHandlerRegistry}
use rusty_dendrite.EventStore.{Event, EventStoreClient, query_events_from_client}
use rusty_dendrite.CommandWorker.Protocol.{Command}
use rusty_dendrite.CommandWorker.Emit.{EmitEventsAndResponse, EmitApplicableEventsAndResponse}
use rusty_dendrite.CommandWorker.Store.{store_events}

pub record AggregateDefinition (S P : Type 0) : Type 0 where
  pub projection_name : String
  pub empty_projection : P
  pub aggregate_id_extractor_registry : TheHandlerRegistry S (Unit {0}) String
  pub command_handler_registry : TheHandlerRegistry S P (EmitApplicableEventsAndResponse P)
  pub sourcing_handler_registry : TheHandlerRegistry S P P

-- A boxed `AggregateHandle`.
pub record AggregateHandle (S : Type 0) : Type 0 where
  pub name : String
  pub handle : Command → EventStoreClient S → Io S (Option EmitEventsAndResponse)
  pub command_names : List String

-- `if let Some(p) = … { projection = p; }`
unfoldable pub keep_or : {P : Type 0} → P → Option P → P
keep_or projection none = projection
keep_or projection (some p) = p

unfoldable pub wrapped_result :
    {P : Type 0} → Option (EmitApplicableEventsAndResponse P) → Option EmitEventsAndResponse
wrapped_result = map_option λ r. record { events = []; response = r.response }

module _ {S P : Type 0} where
  unfoldable pub create_aggregate_definition :
      String
      → P
      → TheHandlerRegistry S (Unit {0}) String
      → TheHandlerRegistry S P (EmitApplicableEventsAndResponse P)
      → TheHandlerRegistry S P P
      → AggregateDefinition S P
  create_aggregate_definition name empty extractors commands sourcing = record {
    projection_name = name;
    empty_projection = empty;
    aggregate_id_extractor_registry = extractors;
    command_handler_registry = commands;
    sourcing_handler_registry = sourcing;
  }

  -- An extractor that is registered under a name finds the identifier in a payload; where there is
  -- none, the identifier stays as it was.
  unfoldable pub extract_id :
      AggregateDefinition S P → String → Bytes → Option String → Io S (Option String)
  extract_id definition name bytes aggregate_id =
      elim (HandlerRegistry.get definition.aggregate_id_extractor_registry name) [
        | none ↦ pure aggregate_id
        | some extractor ↦ extractor.handle bytes tt
      ]

  unfoldable pub source_payload : AggregateDefinition S P → P → Option SerializedObject → Io S P
  source_payload definition projection none = pure projection
  source_payload definition projection (some payload) = do
    sourcing_handler ← lift (
        ok_or (HandlerRegistry.get definition.sourcing_handler_registry payload.type)
          (about "Missing sourcing handler for " payload.type))
    sourced ← sourcing_handler.handle payload.bytes projection
    pure (keep_or projection sourced)

  -- The loop that replays the events of an aggregate.
  unfoldable pub replay : AggregateDefinition S P → P → List Event → Io S P
  replay definition projection [] = pure projection
  replay definition projection (event ∷ events) = do
    projection' ← source_payload definition projection event.payload
    replay definition projection' events

  unfoldable pub restore : AggregateDefinition S P → EventStoreClient S → Option String → Io S P
  restore definition client none = pure definition.empty_projection
  restore definition client (some aggregate_id) = do
    events ← query_events_from_client client aggregate_id
    replay definition definition.empty_projection events

  -- The identifier is looked for in the response only where the command had none.
  unfoldable pub late_id :
      AggregateDefinition S P
      → Option String
      → Option (EmitApplicableEventsAndResponse P)
      → Io S (Option String)
  late_id definition none (some result) = elim result.response [
    | none ↦ pure none
    | some r ↦ extract_id definition r.type r.bytes none
  ]
  late_id definition none none = pure none
  late_id definition (some aggregate_id) _ = pure (some aggregate_id)

  unfoldable pub store_result :
      Runtime S
      → EventStoreClient S
      → String
      → Option (EmitApplicableEventsAndResponse P)
      → Io S (Unit {0})
  store_result rt client aggregate_id none = pure tt
  store_result rt client aggregate_id (some result) = store_events rt client aggregate_id result

  unfoldable pub finish :
      Runtime S
      → EventStoreClient S
      → Option String
      → Option (EmitApplicableEventsAndResponse P)
      → Io S (Option EmitEventsAndResponse)
  unfolding wrapped_result
  finish rt client none result = lift (err (message "Missing aggregate identifier"))
  finish rt client (some aggregate_id) result = do
    store_result rt client aggregate_id result
    pure (wrapped_result result)

  -- `handle_command` from the look-up of the identifier on.
  unfoldable pub handle_payload :
      Runtime S
      → AggregateDefinition S P
      → String
      → Bytes
      → EventStoreClient S
      → Io S (Option EmitEventsAndResponse)
  handle_payload rt definition name bytes client = do
    aggregate_id ← extract_id definition name bytes none
    handler ← lift (
        ok_or (HandlerRegistry.get definition.command_handler_registry name)
          (about "No handler for: " name))
    projection ← restore definition client aggregate_id
    result ← handler.handle bytes projection
    aggregate_id' ← late_id definition aggregate_id result
    finish rt client aggregate_id' result

  unfoldable pub handle_command :
      Runtime S
      → AggregateDefinition S P
      → Command
      → EventStoreClient S
      → Io S (Option EmitEventsAndResponse)
  handle_command rt definition command client = do
    bytes ← lift (
        ok_or (map_option (λ p. p.bytes) command.payload)
          (about "No payload data for: " command.name))
    handle_payload rt definition command.name bytes client

  -- `impl AggregateHandle for AggregateDefinition<P>`.
  unfoldable pub aggregate_handle : Runtime S → AggregateDefinition S P → AggregateHandle S
  aggregate_handle rt definition = record {
    name = definition.projection_name;
    handle = handle_command rt definition;
    command_names = HashMap.keys definition.command_handler_registry.handlers;
  }
