-- ===== src/Main/Found/Tests.antt =====
-- Tests of a greeting that goes through the whole application, in a world with an event store and
-- documents.
use rusty_dendrite.Prelude.{
  String, ◌<>◌, ◌≤◌, ◌≡◌, refl, ap, ◌⊎◌, true, List, [], ◌∷◌, ◌++◌, All, length,
}
use rusty_dendrite.Prelude.Int.{pos, negsuc, ◌+i64◌}
use rusty_dendrite.Io.{ok, attempt}
use rusty_dendrite.ExampleCommand.{Greeting, empty_projection, greeting_text, handle_greet_command}
use rusty_dendrite.ExampleApi.{response, greet, search}
use rusty_dendrite.ExampleEvent.{greeting_document, token_store, token_in, process_events}
use rusty_dendrite.EventProcessor.{initial_token, token_after}
use rusty_dendrite.CommandSubmit.{send_command, submit_command, command_of, result_of}
use rusty_dendrite.Runtime.{draw_uuid, timestamp_millis}
use rusty_dendrite.Messages.{axon_serialize}
use rusty_dendrite.HashMap
use rusty_dendrite.HandlerRegistry
use rusty_dendrite.EventStore.{query_events_from_client, aggregate_events_request}
use rusty_dendrite.CommandWorker.Emit.{emit_applicable, emit_applicable_events_and_response}
use rusty_dendrite.CommandWorker.Store.{event_message, event_messages, store_events}
use rusty_dendrite.CommandWorker.Aggregate.{
  handle_command, handle_payload, extract_id, restore, replay, source_payload, late_id, finish,
  store_result, wrapped_result, keep_or, create_aggregate_definition,
}
use rusty_dendrite.CommandWorker.Output.{response_of}
use rusty_dendrite.ExampleCommand.Spec.{recording}
use rusty_dendrite.ExampleCommand.Setup.{greeter_definition}
use rusty_dendrite.Json.{field}
use rusty_dendrite.QuerySubmit.{QueryServiceClient}
use rusty_dendrite.ExampleEvent.QueryModel.{IsIn}
use rusty_dendrite.ExampleQuery.Search.{test_greeting}
use rusty_dendrite.ExampleQuery.Served.{search_registry}
use rusty_dendrite.Main.Acknowledged.{acknowledged_greeting_indexed}
use rusty_dendrite.Main.Found.{acknowledged_greeting_found}
use rusty_dendrite.Sample.QueryServer.{query_server, query_server-RoutesQueries}
use rusty_dendrite.Sample.Searches.{
  sample_search_query, sample_search_query-IsCodec, sample_search_response,
  sample_search_response-IsCodec,
}
use rusty_dendrite.Sample.CommandServer.{command_server, command_server-Routes}
use rusty_dendrite.Sample.Encodings.{sample_codecs, sample_codecs-AreCodecs}
use rusty_dendrite.Sample.Documents.{
  found, hits, found-hits, found-IsComplete, Documents, document, no_documents, sample_hash,
  sample_matches,
}
use rusty_dendrite.Sample.Whole.{
  Whole, whole_runtime, whole_store, whole_log, whole-IsEventStore, whole_indexer, whole_document,
  whole-KeepsDocuments, whole_list_events, whole_searcher, whole-Searches,
}

abbrev debug : String → String
debug s = s

abbrev whole_query_server : QueryServiceClient Whole
whole_query_server =
    query_server whole_searcher (search_registry sample_search_query sample_search_response)

abbrev hello : Greeting
hello = record { message = "Hello" }

abbrev fresh : Whole
fresh = record {
  world = record { stored = []; drawn = 0; clock = 7; token = negsuc 0 };
  documents = no_documents;
}

abbrev greeted : Whole
greeted =
    (greet debug sample_codecs whole_runtime
      (command_server debug sample_codecs whole_runtime whole_store) hello fresh).1

-- The world that the run of the event processor leaves.
abbrev left : Whole
left =
    (process_events sample_hash whole_indexer sample_codecs.greeted_event.decode whole_list_events
      greeted).world

no_token :
    (s : Whole)
    → s.documents ≡ no_documents
    → initial_token (token_store sample_hash whole_indexer) s ≡ (ok (pos 0), s)
unfolding initial_token token_store attempt token_in field token_after ◌+i64◌
no_token s e = rw e refl

greeted-documents : greeted.documents ≡ no_documents
unfolding greet send_command submit_command command_of result_of draw_uuid timestamp_millis
    handle_command handle_payload extract_id restore replay source_payload late_id finish
    store_result wrapped_result keep_or create_aggregate_definition greeter_definition
    HandlerRegistry.get HandlerRegistry.insert_with_output HandlerRegistry.empty_handler_registry
    HashMap.get HashMap.insert HashMap.contains_key query_events_from_client
    aggregate_events_request emit_applicable emit_applicable_events_and_response event_message
    event_messages store_events empty_projection greeting_text handle_greet_command axon_serialize
    response_of ◌+i64◌
greeted-documents = refl

recording-none : recording true [] ≡ true
unfolding recording
recording-none = refl

acknowledged_greeting_found_example :
    let x =
      greet debug sample_codecs whole_runtime
        (command_server debug sample_codecs whole_runtime whole_store)
        hello
        fresh in
    (x.0 ≡ response (record { message = "ACK! " <> "Hello" }))
    × ((gs : List Greeting) × (search debug sample_search_query sample_search_response whole_runtime
            whole_query_server "client"
            (record { query = "Hello" })
            left
          ≡ (response (gs ++ test_greeting ∷ []), (whole_runtime.new_v4 left).1))
        × All (λ g. IsIn g (hello ∷ [])) gs
        × ((10 ≤ length gs) ⊎ IsIn hello gs))
acknowledged_greeting_found_example =
    acknowledged_greeting_found debug sample_codecs sample_codecs-AreCodecs whole_runtime
      whole_store whole_log whole-IsEventStore
      (command_server debug sample_codecs whole_runtime whole_store)
      (command_server-Routes debug sample_codecs whole_runtime whole_store) sample_hash
      whole_indexer whole_document whole_document whole-KeepsDocuments whole_list_events (λ s. refl)
      sample_search_query sample_search_response sample_search_response-IsCodec whole_query_server
      "client" whole_searcher sample_matches whole-Searches
      (query_server-RoutesQueries whole_searcher _) hello [] fresh left
      (whole_runtime.new_v4 left).1 (record { query = "Hello" }) (found "Hello" left.documents)
      (hits "Hello" left.documents) (_, refl, refl) tt recording-none refl (λ a b i j e. e)
      (sample_search_query-IsCodec (record { query = "Hello" })) refl
      (no_token greeted greeted-documents)
      (λ id. ap (λ (d : Documents). document d "greetings" id) greeted-documents) (λ id. refl) refl
      (found-hits "Hello" left.documents) (found-IsComplete "Hello" left.documents)

acknowledged_greeting_indexed_example :
    let x =
      greet debug sample_codecs whole_runtime
        (command_server debug sample_codecs whole_runtime whole_store)
        hello
        fresh in
    let w =
      (process_events sample_hash whole_indexer sample_codecs.greeted_event.decode whole_list_events
        x.1).world in
    (x.0 ≡ response (record { message = "ACK! " <> "Hello" }))
    × (whole_document w "greetings" "Hello" ≡ greeting_document sample_hash "Hello")
acknowledged_greeting_indexed_example =
    acknowledged_greeting_indexed debug sample_codecs sample_codecs-AreCodecs whole_runtime
      whole_store whole_log whole-IsEventStore
      (command_server debug sample_codecs whole_runtime whole_store)
      (command_server-Routes debug sample_codecs whole_runtime whole_store) sample_hash
      whole_indexer whole_document whole-KeepsDocuments whole_list_events (λ s. refl) hello [] fresh
      (_, refl, refl) tt recording-none refl (λ a b i j e. e) (no_token greeted greeted-documents)
      (λ id. ap (λ (d : Documents). document d "greetings" id) greeted-documents)
