-- ===== src/CommandWorker/Output/Delivery.antt =====
-- The worker and its output stream together (src/axon_utils/command_worker.rs): two tasks that share
-- a channel.
use rusty_dendrite.Prelude.{ℕ, String, ◌≡◌, ap, ◌∙◌, none, List, map}
use rusty_dendrite.Io.{Io, ok}
use rusty_dendrite.Runtime.{Streaming}
use rusty_dendrite.EventStore.{EventStoreClient}
use rusty_dendrite.Channel.{System, Reach, start}
use rusty_dendrite.Channel.Delivery.{delivers}
use rusty_dendrite.CommandWorker.Protocol.{CommandProviderInbound, CommandProviderOutbound}
use rusty_dendrite.CommandWorker.Registry.{TheAggregateRegistry}
use rusty_dendrite.CommandWorker.Worker.{AxonCommandResult, command_worker}
use rusty_dendrite.CommandWorker.Worker.Answers.{command_ids, command_worker_answers}
use rusty_dendrite.CommandWorker.Output.{StreamState, respond, opening, create_output_stream}
use rusty_dendrite.CommandWorker.Output.Answers.{answered, answer_to, ids_of_answers}
use rusty_dendrite.CommandWorker.Output.FlowControl.{command_stream_permits}

module _ {S : Type 0} (aggregate_registry : TheAggregateRegistry S) (client : EventStoreClient S)
    (open_stream : Io S (Streaming CommandProviderInbound))
    (messages : Streaming CommandProviderInbound) (s s' : S)
    (opens : open_stream s ≡ (ok messages, s')) (uuid : ℕ → String) (debug : String → String)
    (client_id : String) (commands : List String) where
  abbrev results : List AxonCommandResult
  results = (command_worker aggregate_registry client open_stream s).sent

  -- The two tasks, the worker being where it sends its first result.
  abbrev pub tasks : System AxonCommandResult CommandProviderOutbound StreamState
  tasks =
      start (respond uuid debug client_id) (opening uuid debug client_id commands).1 results
        (opening uuid debug client_id commands).0

  -- However a running worker, whose stream was opened, and its output stream are interleaved, they
  -- can go on until every command that the worker has received is answered once, in the order of
  -- the commands and with what its handler has returned.
  pub commands_delivered :
      {t : System AxonCommandResult CommandProviderOutbound StreamState}
      → (command_worker aggregate_registry client open_stream s).returned ≡ none
      → Reach (respond uuid debug client_id) tasks t
      → (u : System AxonCommandResult CommandProviderOutbound StreamState) × Reach
          (respond uuid debug client_id)
          t
          u
        × (map (λ a. a.request_identifier) (answered u.yielded) ≡ command_ids messages)
        × (answered u.yielded ≡ map (answer_to debug) results)
  unfolding create_output_stream
  commands_delivered running r =
      let (u, q, _, e) = delivers (respond uuid debug client_id) _ results _ r in
      let said = ap answered e ∙ (command_stream_permits uuid debug client_id commands results).0 in
      (
        u,
        q,
        ap (map (λ a. a.request_identifier)) said
            ∙ ids_of_answers debug results
            ∙ command_worker_answers aggregate_registry client open_stream messages s s' opens
                running,
        said,
      )
