-- ===== src/CommandSubmit.antt =====
-- src/axon_utils/command_submit.rs: the application sends a command and waits for the response. The
-- messages are those of proto/axon_server/command.proto.
use rusty_dendrite.Prelude.{String, Option, none, some}
use rusty_dendrite.Prelude.Int.{pos}
use rusty_dendrite.Io.{Result, err, message, Io, pure, lift, unwrap, ◌>>=◌}
use rusty_dendrite.Messages.{Bytes, SerializedObject, ErrorMessage}
use rusty_dendrite.Runtime.{Runtime, draw_uuid}
use rusty_dendrite.CommandWorker.Protocol.{Command, CommandResponse}

-- The call of the generated `CommandServiceClient` that the submission makes.
pub record CommandServiceClient (S : Type 0) : Type 0 where
  pub dispatch : Command → Io S CommandResponse

unfoldable pub command_of : String → SerializedObject → Command
command_of message_identifier serialized = record {
  message_identifier = message_identifier;
  name = serialized.type;
  payload = some serialized;
  client_id = "yyy";
  component_name = "RustCommandClient";
  timestamp = pos 0;
}

module _ {S : Type 0} where
  -- An error message in the response is the error, whatever its payload.
  unfoldable pub result_of :
      Option ErrorMessage → Option SerializedObject → Io S (Option SerializedObject)
  result_of (some error_message) payload s = (err (message error_message.message), s)
  result_of none payload s = pure payload s

  unfoldable pub submit_command :
      Runtime S → CommandServiceClient S → SerializedObject → Io S (Option SerializedObject)
  submit_command rt client serialized = do
    uuid ← draw_uuid rt
    response ← client.dispatch (command_of uuid serialized)
    result_of response.error_message response.payload

  -- `encoded` is the encoding of the command; the source unwraps it.
  unfoldable pub send_command :
      Runtime S → CommandServiceClient S → String → Result Bytes → Io S (Option SerializedObject)
  send_command rt client command_type encoded = do
    buf ← lift (unwrap encoded)
    submit_command rt client (record { type = command_type; revision = "1"; bytes = buf })
