-- ===== src/CommandWorker/Worker/Answers.antt =====
-- Which commands the loop of `command_worker` answers, and how it ends
-- (src/axon_utils/command_worker.rs).
use rusty_dendrite.Prelude.{
  String, ◌≡◌, refl, ap, ◌⊎◌, inl, inr, Option, none, some, List, [], ◌∷◌, map,
}
use rusty_dendrite.Io.{
  Io, Result, ok, err, panicked, message, Outcome, captured, pure, next, attempt,
}
use rusty_dendrite.Runtime.{item, end_of_stream, failed, Streaming}
use rusty_dendrite.HashMap.{HashMap}
use rusty_dendrite.EventStore.{EventStoreClient}
use rusty_dendrite.CommandWorker.Protocol.{CommandProviderInbound, InboundRequest, ack, command}
use rusty_dendrite.CommandWorker.Emit.{EmitEventsAndResponse}
use rusty_dendrite.CommandWorker.Registry.{TheAggregateRegistry}
use rusty_dendrite.CommandWorker.Worker.{
  AxonCommandResult, Run, command_worker, opened, run_worker, worker_loop, handle_request, and_then,
}

-- What one message adds to the identifiers of the commands after it.
abbrev pub ids_of : Option InboundRequest → List String → List String
ids_of none ids = ids
ids_of (some ack) ids = ids
ids_of (some (command c)) ids = c.message_identifier ∷ ids

-- The identifiers of the commands among the messages of the server, in order.
abbrev pub command_ids : Streaming CommandProviderInbound → List String
command_ids [] = []
command_ids (item inbound ∷ rest) = ids_of inbound.request (command_ids rest)
command_ids (end_of_stream ∷ rest) = command_ids rest
command_ids (failed code ∷ rest) = []

-- The first error of the stream.
abbrev pub first_failure : Streaming CommandProviderInbound → Option String
first_failure [] = none
first_failure (item inbound ∷ rest) = first_failure rest
first_failure (end_of_stream ∷ rest) = first_failure rest
first_failure (failed code ∷ rest) = some code

abbrev pub sent_ids : {S : Type 0} → Run S → List String
sent_ids r = map (λ x. x.message_identifier) r.sent

abbrev result_of : String → Outcome (Option EmitEventsAndResponse) → AxonCommandResult
result_of id result = record { message_identifier = id; result = result }

-- How a loop stands after some messages.
abbrev Answers : {S : Type 0} → Run S → List String → Option String → Type 0
Answers r ids failure =
    (r.returned ≡ none → sent_ids r ≡ ids)
    × ((r.returned ≡ none)
        ⊎ (r.returned ≡ some panicked)
        ⊎ ((code : String) × (failure ≡ some code) × (r.returned ≡ some (err (message code)))))

module _ {S : Type 0} (aggregate_registry : TheAggregateRegistry S) (mapping : HashMap String)
    (client : EventStoreClient S) where
  Answers-result :
      (id : String) (x : Result (Option EmitEventsAndResponse)) (s : S) (rest : S → Run S)
      (ids : List String) (failure : Option String)
      → ((s' : S) → Answers (rest s') ids failure)
      → Answers
          (and_then aggregate_registry mapping client
            (next (λ result. pure (some (result_of id result))) (captured x) s)
            rest)
          (id ∷ ids)
          failure
  unfolding and_then
  Answers-result id (ok a) s rest ids failure h = (λ e. ap (λ l. id ∷ l) ((h s).0 e), (h s).1)
  Answers-result id (err e) s rest ids failure h = (λ e. ap (λ l. id ∷ l) ((h s).0 e), (h s).1)
  Answers-result id panicked s rest ids failure h = (λ e. cc, inr (inl refl))

  Answers-request :
      (request : Option InboundRequest) (s : S) (rest : S → Run S) (ids : List String)
      (failure : Option String)
      → ((s' : S) → Answers (rest s') ids failure)
      → Answers
          (and_then aggregate_registry mapping client
            (handle_request aggregate_registry mapping client request s)
            rest)
          (ids_of request ids)
          failure
  unfolding and_then handle_request attempt
  Answers-request none s rest ids failure h = h s
  Answers-request (some ack) s rest ids failure h = h s
  Answers-request (some (command c)) s rest ids failure h =
      Answers-result c.message_identifier _ _ rest ids failure h

  Answers-loop :
      (messages : Streaming CommandProviderInbound) (s : S)
      → Answers
          (worker_loop aggregate_registry mapping client messages s)
          (command_ids messages)
          (first_failure messages)
  unfolding worker_loop
  Answers-loop [] s = (λ e. refl, inl refl)
  Answers-loop (item inbound ∷ messages) s =
      Answers-request inbound.request s (worker_loop aggregate_registry mapping client messages)
        (command_ids messages) (first_failure messages) (Answers-loop messages)
  Answers-loop (end_of_stream ∷ messages) s = Answers-loop messages s
  Answers-loop (failed code ∷ messages) s = (λ e. refl, inr (inr (code, refl, refl)))

module _ {S : Type 0} (aggregate_registry : TheAggregateRegistry S) (client : EventStoreClient S)
    (open_stream : Io S (Streaming CommandProviderInbound))
    (messages : Streaming CommandProviderInbound) (s s' : S)
    (opens : open_stream s ≡ (ok messages, s')) where
  Answers-command_worker :
      Answers
        (command_worker aggregate_registry client open_stream s)
        (command_ids messages)
        (first_failure messages)
  unfolding command_worker opened run_worker
  Answers-command_worker = rw opens (Answers-loop aggregate_registry _ client messages s')

  -- As long as the worker runs it has sent one result for each command among the messages that it
  -- has received on the stream that it has opened, in the order of the commands, under the command's
  -- message identifier; this holds whatever the handlers return, errors included.
  pub command_worker_answers :
      (command_worker aggregate_registry client open_stream s).returned ≡ none
      → sent_ids (command_worker aggregate_registry client open_stream s) ≡ command_ids messages
  command_worker_answers = Answers-command_worker.0

  -- Once its stream is open the worker still runs, or it has panicked, or it has returned the first
  -- error of the stream of messages; no error of a handler ends it, it never returns a success, and
  -- the end of the stream does not end it.
  pub command_worker_ends :
      let r = command_worker aggregate_registry client open_stream s in
      (r.returned ≡ none)
      ⊎ (r.returned ≡ some panicked)
      ⊎ ((code : String) × (first_failure messages ≡ some code)
          × (r.returned ≡ some (err (message code))))
  command_worker_ends = Answers-command_worker.1
