-- ===== src/QuerySubmit.antt =====
-- src/axon_utils/query_submit.rs: the application sends a query and collects the responses.
pub mod Collects
mod Tests
use rusty_dendrite.Prelude.{String, Option, none, some, List, [], ◌∷◌, ◌++◌}
use rusty_dendrite.Prelude.Int.{pos}
use rusty_dendrite.Io.{Result, ok, err, message, Io, lift, unwrap, ◌>>=◌}
use rusty_dendrite.Messages.{Bytes, SerializedObject}
use rusty_dendrite.Runtime.{Runtime, draw_uuid, item, end_of_stream, failed, Streaming}
use rusty_dendrite.QueryProcessor.{QueryRequest}
use rusty_dendrite.QueryProcessor.Output.{QueryResponse}

-- The call of the generated `QueryServiceClient` that the submission makes.
pub record QueryServiceClient (S : Type 0) : Type 0 where
  pub query : QueryRequest → Io S (Streaming QueryResponse)

unfoldable pub request_of : String → String → SerializedObject → QueryRequest
request_of client_id message_identifier serialized = record {
  message_identifier = message_identifier;
  query = serialized.type;
  response_type = none;
  payload = some serialized;
  client_id = client_id;
  component_name = "RustCommandClient";
  timestamp = pos 0;
}

-- The loop of `submit_query`: it ends at the end of the stream, and at a response with no payload.
collect_payloads : List SerializedObject → Streaming QueryResponse → Result (List SerializedObject)
collect_payloads result [] = ok result
collect_payloads result (item response ∷ stream) = elim response.payload [
  | some payload ↦ collect_payloads (result ++ payload ∷ []) stream
  | none ↦ ok result
]
collect_payloads result (end_of_stream ∷ stream) = ok result
collect_payloads result (failed status ∷ stream) = err (message status)

module _ {S : Type 0} where
  unfoldable pub submit_query :
      Runtime S → QueryServiceClient S → String → SerializedObject → Io S (List SerializedObject)
  unfolding collect_payloads
  submit_query rt client client_id serialized = do
    uuid ← draw_uuid rt
    stream ← client.query (request_of client_id uuid serialized)
    lift (collect_payloads [] stream)

  -- `encoded` is the encoding of the query; the source unwraps it.
  unfoldable pub send_query :
      Runtime S
      → QueryServiceClient S
      → String
      → String
      → Result Bytes
      → Io S (List SerializedObject)
  send_query rt client client_id query_type encoded = do
    buf ← lift (unwrap encoded)
    submit_query rt client client_id (record { type = query_type; revision = "1"; bytes = buf })
