-- ===== src/Main/Tests.antt =====
-- Tests of the start of the application (src/main.rs) over an Elastic Search in memory, which is the
-- world. The clock is a document.
use rusty_dendrite.Prelude.{String, ◌≡◌, refl, some, [], arith}
use rusty_dendrite.Prelude.Int.{pos}
use rusty_dendrite.Io.{Result, ok, err, message}
use rusty_dendrite.EventStore.{EventStoreClient}
use rusty_dendrite.Connection.{Transport, ElasticTransport}
use rusty_dendrite.Connection.Elastic.{ready, AnswersAfter, answers}
use rusty_dendrite.ExampleApi.Greetings.{greeted_in}
use rusty_dendrite.ExampleEvent.Indexes.{indexed, reported}
use rusty_dendrite.Json.{Value, null, text, object, no_members, member_and, field}
use rusty_dendrite.Main.{Environment, AxonServerHandle, run_commands, run_events, run_queries}
use rusty_dendrite.Main.Tasks.{tasks_hide_errors, run_events-indexes}
use rusty_dendrite.Sample.Encodings.{sample_codecs}
use rusty_dendrite.Sample.Searches.{sample_search_query, sample_search_response}
use rusty_dendrite.Sample.Documents.{
  Documents, document, no_documents, sample_hash, indexer, indexer-KeepsDocuments, searcher,
  documents_runtime,
}
use rusty_dendrite.Sample.Streams.{
  sample_history, sample_messages, sample_messages-Delivers, sample_list_events,
  no_documents-initial_token,
}

abbrev put : String → String → Documents → Documents
put index id s = (indexer.index index id (text "there") s).1

abbrev connection_if : Value → Result String
connection_if (text t) = ok "connection"
connection_if _ = err (message "not yet")

-- The server is there once the clock has moved.
abbrev transport : Transport Documents String
transport = record {
  from_shared = λ url. ok tt;
  connect = λ url s. (connection_if (document s "clock" "moved"), s);
  get_platform_server = λ conn name s. (ok tt, s);
}

abbrev green : Value
green = object (member_and "status" (text "green") no_members)

abbrev elastic : ElasticTransport Documents String
elastic = record {
  single_node = λ url. ok url;
  info = λ client s. (ok null, s);
  stats = λ client s. (ok green, s);
}

abbrev no_store : EventStoreClient Documents
no_store = record {
  list_aggregate_events = λ request s. (ok [], s);
  read_highest_sequence_nr = λ request s. (err (message "no store"), s);
  append_event = λ events s. (err (message "no store"), s);
}

abbrev env : Environment Documents String String
env = record {
  runtime = documents_runtime;
  delay = put "clock" "moved";
  transport = transport;
  elastic = elastic;
  event_store = λ conn. no_store;
  open_commands = λ conn s. (err (message "unavailable"), s);
  list_events = λ conn. sample_list_events;
  open_queries = λ conn s. (err (message "unavailable"), s);
  indexer = λ client. indexer;
  searcher = λ client. searcher;
  hash = sample_hash;
  codecs = sample_codecs;
  search_query = sample_search_query;
  search_response = sample_search_response;
}

abbrev handle : AxonServerHandle String
handle = record { display_name = "uuid"; conn = "connection" }

tasks_hide_errors_example :
    ¬ ((run_commands env handle no_documents).returned ≡ some (err (message "unavailable")))
    × ¬ ((run_events env 1 1 handle no_documents).returned ≡ some (err (message "unavailable")))
    × ¬ ((run_queries env 1 1 handle no_documents).returned ≡ some (err (message "unavailable")))
tasks_hide_errors_example = tasks_hide_errors env handle 1 1 no_documents (message "unavailable")

status-green : field green "status" ≡ text "green"
unfolding field
status-green = refl

elastic-answers :
    AnswersAfter elastic
      (put "clock" "moved")
      1
      0
      no_documents
      "http://elastic-search:9200"
      no_documents
elastic-answers =
    answers {s = no_documents} {s₁ = no_documents} {s' = no_documents} null refl refl
      (ready {s = no_documents} {s' = no_documents} green "green" refl status-green refl)
      (omega arith)

run_events-indexes_example :
    let r = run_events env 1 1 handle no_documents in
    (r.processed ≡ reported sample_messages)
    × ((id : String)
        → document r.world "greetings" id
          ≡ indexed sample_hash
              (greeted_in sample_history)
              id
              (document no_documents "greetings" id))
run_events-indexes_example =
    run_events-indexes env handle document 1 1 0 "http://elastic-search:9200" sample_messages
      sample_history (pos 0) no_documents no_documents no_documents indexer-KeepsDocuments
      elastic-answers (omega arith) no_documents-initial_token refl sample_messages-Delivers
