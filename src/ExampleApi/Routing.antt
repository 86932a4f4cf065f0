-- ===== src/ExampleApi/Routing.antt =====
-- What the API relies on of AxonServer: a command that it dispatches is handled by the worker of the
-- greeter, and the response is the one that the worker's output stream makes of the result
-- (src/axon_utils/command_submit.rs).
use rusty_dendrite.Prelude.{String, ◌≡◌, refl, ap, ◌∙◌, Option, none, some, map_option}
use rusty_dendrite.Io.{Result, ok, err, message, Outcome, done, raised, to_string, captured}
use rusty_dendrite.Messages.{Bytes, SerializedObject, ErrorMessage}
use rusty_dendrite.Runtime.{Runtime, draw_uuid}
use rusty_dendrite.EventStore.{EventStoreClient}
use rusty_dendrite.CommandWorker.Protocol.{Command, CommandResponse}
use rusty_dendrite.CommandWorker.Emit.{EmitEventsAndResponse}
use rusty_dendrite.CommandWorker.Aggregate.{handle_command}
use rusty_dendrite.CommandWorker.Output.Answers.{answer_of, answer_to}
use rusty_dendrite.CommandSubmit.{
  CommandServiceClient, command_of, result_of, submit_command, send_command,
}
use rusty_dendrite.ExampleCommand.{Codecs}
use rusty_dendrite.ExampleCommand.Setup.{greeter_definition}

-- What a client gets of an outcome: the response, or the text of the error.
abbrev pub returned_by :
    (String → String) → Outcome (Option EmitEventsAndResponse) → Result (Option SerializedObject)
returned_by debug (done none) = ok none
returned_by debug (done (some r)) = ok r.response
returned_by debug (raised e) = err (message (to_string debug e))

module _ (debug : String → String) (codecs : Codecs) {S : Type 0} (rt : Runtime S)
    (store : EventStoreClient S) where
  abbrev pub Routes : CommandServiceClient S → Type 0
  Routes client =
      (c : Command) (s : S) (o : Outcome (Option EmitEventsAndResponse))
      → captured (handle_command rt (greeter_definition codecs) c store s).0 ≡ ok o
      → (r : CommandResponse) × (client.dispatch c s
          ≡ (ok r, (handle_command rt (greeter_definition codecs) c store s).1))
        × (answer_of r
            ≡ answer_to debug (record { message_identifier = c.message_identifier; result = o }))

module _ {S : Type 0} where
  result_of-none :
      (o : Option ErrorMessage) (payload : Option SerializedObject) (s : S)
      → map_option (λ e. e.message) o ≡ none
      → result_of o payload s ≡ (ok payload, s)
  unfolding result_of
  result_of-none none payload s e = refl
  result_of-none (some m) payload s e = absurd (cc)

  result_of-some :
      (o : Option ErrorMessage) (payload : Option SerializedObject) (s : S) (text : String)
      → map_option (λ e. e.message) o ≡ some text
      → result_of o payload s ≡ (err (message text), s)
  unfolding result_of
  result_of-some none payload s text e = absurd (cc)
  result_of-some (some m) payload s text e =
      let same : m.message ≡ text = cc in ap (λ (t : String). (err (message t), s)) same

  result_of-answer :
      (debug : String → String) (id : String) (r : CommandResponse)
      (o : Outcome (Option EmitEventsAndResponse)) (s : S)
      → answer_of r ≡ answer_to debug (record { message_identifier = id; result = o })
      → result_of r.error_message r.payload s ≡ (returned_by debug o, s)
  result_of-answer debug id r (done none) s e =
      result_of-none r.error_message r.payload s (ap (λ a. a.error) e)
      ∙ ap (λ p. (ok p, s)) (ap (λ a. a.payload) e)
  result_of-answer debug id r (done (some x)) s e =
      result_of-none r.error_message r.payload s (ap (λ a. a.error) e)
      ∙ ap (λ p. (ok p, s)) (ap (λ a. a.payload) e)
  result_of-answer debug id r (raised x) s e =
      result_of-some r.error_message r.payload s (to_string debug x) (ap (λ a. a.error) e)

module _ (debug : String → String) (codecs : Codecs) {S : Type 0} (rt : Runtime S)
    (store : EventStoreClient S) (client : CommandServiceClient S)
    (routes : Routes debug codecs rt store client) where
  -- The command that a call makes of a type and a payload.
  abbrev pub command_made : String → Bytes → S → Command
  command_made command_type buf s =
      command_of (rt.new_v4 s).0 (record { type = command_type; revision = "1"; bytes = buf })

  pub send_command-routed :
      (command_type : String) (buf : Bytes) (s : S) (o : Outcome (Option EmitEventsAndResponse))
      → let x =
          handle_command rt
            (greeter_definition codecs)
            (command_made command_type buf s)
            store
            (rt.new_v4 s).1 in
        captured x.0 ≡ ok o
        → send_command rt client command_type (ok buf) s ≡ (returned_by debug o, x.1)
  unfolding send_command submit_command draw_uuid
  send_command-routed command_type buf s o caught =
      let c = command_made command_type buf s in
      let (r, dispatched, answer) = routes c (rt.new_v4 s).1 o caught in
      rw dispatched (result_of-answer debug c.message_identifier r o _ answer)
