-- ===== src/ExampleApi/Answers.antt =====
-- What the calls of the greeter's service answer (src/example_api/mod.rs), from the outcome of the
-- command that they send.
use rusty_dendrite.Prelude.{
  String, ◌<>◌, ◌≡◌, refl, subst, ap, Bool, true, false, Option, none, some, List, [], ◌∷◌, ◌==◌,
  if◌then◌else◌,
}
use rusty_dendrite.Io.{ok, Outcome, done, raised, message, captured, to_string}
use rusty_dendrite.Messages.{Bytes}
use rusty_dendrite.Runtime.{Runtime}
use rusty_dendrite.CommandWorker.Emit.{EmitEventsAndResponse}
use rusty_dendrite.CommandSubmit.{CommandServiceClient}
use rusty_dendrite.ExampleCommand.{Greeting, Acknowledgement, Codecs, greeting_text}
use rusty_dendrite.ExampleCommand.Spec.{
  GreeterCommand, greet as greet_greeter, start as start_greeter, stop as stop_greeter,
  GreeterEvent, acknowledged, nothing, refused, decide, recording, recording-start, recording-stop,
}
use rusty_dendrite.ExampleCommand.Spec
use rusty_dendrite.ExampleCommand.Carries.{AreCodecs, object}
use rusty_dendrite.ExampleCommand.Session.{Stands}
use rusty_dendrite.ExampleApi.{Reply, response, status, served, greet_reply}
use rusty_dendrite.ExampleApi.Routing.{returned_by}

-- What a greeting is to be answered with, when the recorder is on or off.
abbrev pub greet_meant : Bool → Greeting → Reply Acknowledgement
greet_meant true request =
    if request.message == "ERROR"
    then status "Panicked at reading 'ERROR'"
    else response (record { message = "ACK! " <> request.message })
greet_meant false request = response (record { message = "Hello " <> request.message <> "!" })

module _ (debug : String → String) (codecs : Codecs) (valid : AreCodecs codecs) where
  decode-encoded :
      (text : String) (buf : Bytes)
      → codecs.acknowledgement.encode (record { message = text }) ≡ ok buf
      → codecs.acknowledgement.decode buf ≡ ok (record { message = text })
  decode-encoded text buf e =
      let (buf', e', decoded) = valid.acknowledgement (record { message = text }) in
      let same : buf' ≡ buf = cc in
      subst (λ b. codecs.acknowledgement.decode b ≡ ok (record { message = text })) same decoded

  module _ {S : Type 0} (rt : Runtime S) (client : CommandServiceClient S)
      (request : Greeting) where
    abbrev pub replied : Outcome (Option EmitEventsAndResponse) → Reply Acknowledgement
    replied o = served debug (greet_reply debug codecs rt client request) (returned_by debug o)

    replied-acknowledged :
        (text : String) (o : Outcome (Option EmitEventsAndResponse))
        → Stands codecs o (acknowledged text)
        → replied o ≡ response (record { message = text })
    unfolding served greet_reply
    replied-acknowledged text o (x, (buf, encoded, e), caught) =
        let same : o
            ≡ done (some (record { events = []; response = some (object "Acknowledgement" buf) })) =
          cc (ap captured e, caught) in
        rw (same, decode-encoded text buf encoded) refl

    replied-nothing :
        (o : Outcome (Option EmitEventsAndResponse))
        → Stands codecs o nothing
        → replied o ≡ response (record { message = "Hello " <> request.message <> "!" })
    unfolding served greet_reply
    replied-nothing o (x, e, caught) =
        let same : o ≡ done none = cc (ap captured e, caught) in rw same refl

    replied-refused :
        (o : Outcome (Option EmitEventsAndResponse))
        → Stands codecs o refused
        → replied o ≡ status "Panicked at reading 'ERROR'"
    unfolding served greet_reply to_string
    replied-refused o (x, e, caught) =
        let same : o ≡ raised (message "Panicked at reading 'ERROR'") =
          cc (ap captured e, caught) in
        rw same refl

    abbrev decided : Bool → Spec.Reply × List GreeterEvent
    decided error =
        if error
        then (refused, [])
        else (acknowledged ("ACK! " <> request.message), Spec.greeted (some request) ∷ [])

    replied-decided :
        (error : Bool) (o : Outcome (Option EmitEventsAndResponse))
        → Stands codecs o (decided error).0
        → replied o ≡ (
            if error
            then status "Panicked at reading 'ERROR'"
            else response (record { message = "ACK! " <> request.message }))
    replied-decided true o h = replied-refused o h
    replied-decided false o h = replied-acknowledged _ o h

    pub replied-decide :
        (b : Bool) (o : Outcome (Option EmitEventsAndResponse))
        → Stands codecs o (decide b (greet_greeter (some request))).0
        → replied o ≡ greet_meant b request
    unfolding decide greeting_text
    replied-decide true o h = replied-decided (request.message == "ERROR") o h
    replied-decide false o h = replied-nothing o h

  abbrev pub emptied : Outcome (Option EmitEventsAndResponse) → Reply (Unit {0})
  emptied o = served debug (λ _. response tt) (returned_by debug o)

  emptied-done :
      (o : Outcome (Option EmitEventsAndResponse))
      → Stands codecs o Spec.done
      → emptied o ≡ response tt
  unfolding served
  emptied-done o (x, (buf, encoded, e), caught) =
      let same : o ≡ done (some (record { events = []; response = some (object "Empty" buf) })) =
        cc (ap captured e, caught) in
      rw same refl

  emptied-nothing :
      (o : Outcome (Option EmitEventsAndResponse))
      → Stands codecs o nothing
      → emptied o ≡ response tt
  unfolding served
  emptied-nothing o (x, e, caught) =
      let same : o ≡ done none = cc (ap captured e, caught) in rw same refl

  pub emptied-start :
      (b : Bool) (o : Outcome (Option EmitEventsAndResponse))
      → Stands codecs o (decide b start_greeter).0
      → emptied o ≡ response tt
  unfolding decide
  emptied-start true o h = emptied-nothing o h
  emptied-start false o h = emptied-done o h

  pub emptied-stop :
      (b : Bool) (o : Outcome (Option EmitEventsAndResponse))
      → Stands codecs o (decide b stop_greeter).0
      → emptied o ≡ response tt
  unfolding decide
  emptied-stop true o h = emptied-done o h
  emptied-stop false o h = emptied-nothing o h
