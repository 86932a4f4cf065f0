-- ===== src/Sample/CommandServer.antt =====
-- A server for the tests that hands each command to the worker of the greeter, and responds as the
-- worker's output stream does.
use rusty_dendrite.Prelude.{String, ◌≡◌, refl, ap, ◌∙◌, Option}
use rusty_dendrite.Io.{Result, ok, err, panicked, Outcome, done, raised, captured}
use rusty_dendrite.Runtime.{Runtime}
use rusty_dendrite.EventStore.{EventStoreClient}
use rusty_dendrite.CommandWorker.Protocol.{CommandResponse}
use rusty_dendrite.CommandWorker.Emit.{EmitEventsAndResponse}
use rusty_dendrite.CommandWorker.Aggregate.{handle_command}
use rusty_dendrite.CommandWorker.Output.{response_of}
use rusty_dendrite.CommandWorker.Output.Answers.{
  answer_of, answer_to, answer_by, answer_of-response_of,
}
use rusty_dendrite.CommandSubmit.{CommandServiceClient}
use rusty_dendrite.ExampleCommand.{Codecs}
use rusty_dendrite.ExampleCommand.Setup.{greeter_definition}
use rusty_dendrite.ExampleApi.Routing.{Routes}
use rusty_dendrite.Sample.World.{sample_uuid}

module _ (debug : String → String) {S : Type 0} where
  abbrev pub responded :
      String → Result (Option EmitEventsAndResponse) × S → Result CommandResponse × S
  responded id (ok result, s) = (ok (response_of sample_uuid debug "" "" id (done result)), s)
  responded id (err e, s) = (ok (response_of sample_uuid debug "" "" id (raised e)), s)
  responded id (panicked, s) = (panicked, s)

  responded-answers :
      (id : String) (x : Result (Option EmitEventsAndResponse)) (s : S)
      (o : Outcome (Option EmitEventsAndResponse))
      → captured x ≡ ok o
      → (r : CommandResponse) × (responded id (x, s) ≡ (ok r, s))
        × (answer_of r ≡ answer_to debug (record { message_identifier = id; result = o }))
  responded-answers id (ok result) s o e =
      let same : done result ≡ o = cc in
      (
        _,
        refl,
        answer_of-response_of sample_uuid debug "" "" id (done result)
            ∙ ap (answer_by debug id) same,
      )
  responded-answers id (err x) s o e =
      let same : raised x ≡ o = cc in
      (
        _,
        refl,
        answer_of-response_of sample_uuid debug "" "" id (raised x) ∙ ap (answer_by debug id) same,
      )
  responded-answers id panicked s o e = absurd (cc)

  module _ (codecs : Codecs) (rt : Runtime S) (store : EventStoreClient S) where
    abbrev pub command_server : CommandServiceClient S
    command_server = record {
      dispatch = λ c s.
          responded c.message_identifier (handle_command rt (greeter_definition codecs) c store s);
    }

    pub command_server-Routes : Routes debug codecs rt store command_server
    command_server-Routes c s o e = responded-answers c.message_identifier _ _ o e
