-- ===== src/CommandWorker/Output/Identifiers.antt =====
-- The identifiers of the messages of the output stream (src/axon_utils/command_worker.rs).
use mathlib.Core.List.{Nodup}
use rusty_dendrite.Prelude.{
  ℕ, ◌+◌, String, ◌≡◌, refl, Bool, true, false, Option, none, some, List, [], ◌∷◌, arith,
}
use rusty_dendrite.Prelude.Int.{ℤ}
use rusty_dendrite.Io.{Outcome, done, raised}
use rusty_dendrite.Permits.{settle}
use rusty_dendrite.Identifiers.{
  IsInjective, ids_from, identifiers_of, Draws, Draws-append, drain-Draws, Draws-Nodup,
}
use rusty_dendrite.CommandWorker.Protocol.{
  CommandProviderOutbound, CommandResponse, OutboundRequest, subscribe, flow_control,
  command_response,
}
use rusty_dendrite.CommandWorker.Emit.{EmitEventsAndResponse}
use rusty_dendrite.CommandWorker.Worker.{AxonCommandResult}
use rusty_dendrite.CommandWorker.Output.{
  StreamState, subscription, subscriptions, drawn_by, grant, response_of, settled, respond, opening,
  create_output_stream,
}

abbrev own_ids : Option OutboundRequest → String → List String
own_ids (some (subscribe c)) id = c.message_id ∷ id ∷ []
own_ids (some (flow_control f)) id = id ∷ []
own_ids (some (command_response r)) id = r.message_identifier ∷ id ∷ []
own_ids none id = id ∷ []

abbrev own : CommandProviderOutbound → List String
own out = own_ids out.request out.instruction_id

-- The identifiers of some output: of the instructions, and of the messages that they carry.
abbrev pub identifiers : List CommandProviderOutbound → List String
identifiers = identifiers_of own

module _ (uuid : ℕ → String) (debug : String → String) (client_id : String) where
  response_of-message_identifier :
      (a b : String) (o : Outcome (Option EmitEventsAndResponse))
      → (response_of uuid debug client_id a b o).message_identifier ≡ a
  unfolding response_of
  response_of-message_identifier a b (done r) = refl
  response_of-message_identifier a b (raised e) = refl

  settled-Draws :
      (x : CommandResponse) (n : ℕ) (d : Bool × ℤ)
      → x.message_identifier ≡ uuid n
      → let out =
          settled uuid debug client_id
            (record { instruction_id = uuid (n + 1); request = some (command_response x) })
            n
            d in
        Draws own uuid n out.0 out.1.drawn
  unfolding settled grant ids_from
  settled-Draws x n (true, p) e = (3, refl, ground arith)
  settled-Draws x n (false, p) e = (2, refl, ground arith)

  respond-Draws :
      (st : StreamState) (r : AxonCommandResult)
      → Draws own uuid st.drawn
          (respond uuid debug client_id st r).0
          (respond uuid debug client_id st r).1.drawn
  unfolding respond
  respond-Draws st r =
      settled-Draws (response_of uuid debug client_id (uuid st.drawn) r.message_identifier r.result)
        st.drawn (settle st.permits) (response_of-message_identifier _ _ r.result)

  subscriptions-Draws :
      (n : ℕ) (commands : List String)
      → Draws own uuid n
          (subscriptions uuid debug client_id n commands)
          (drawn_by uuid debug client_id n commands)
  unfolding subscriptions drawn_by ids_from
  subscriptions-Draws n [] = (0, omega arith, refl)
  subscriptions-Draws n (c ∷ commands) =
      Draws-append own uuid n (n + 2) _ (subscription uuid debug client_id n c ∷ []) _
        (2, refl, refl) (subscriptions-Draws (n + 2) commands)

  opening-Draws :
      (commands : List String)
      → Draws own uuid 0
          (opening uuid debug client_id commands).0
          (opening uuid debug client_id commands).1.drawn
  unfolding opening grant ids_from
  opening-Draws commands =
      Draws-append own uuid 0 _ _ _ _ (subscriptions-Draws 0 commands) (1, refl, refl)

  -- The messages of the stream and the instructions that carry them use the identifiers that
  -- `Uuid::new_v4` gives, each one once and in the order of the calls; so where different calls give
  -- different identifiers, no identifier is used twice.
  pub command_stream_identifiers :
      (commands : List String) (results : List AxonCommandResult)
      → IsInjective uuid
      → Nodup (identifiers (create_output_stream uuid debug client_id commands results))
        × ((k : ℕ) × (identifiers (create_output_stream uuid debug client_id commands results)
              ≡ ids_from uuid 0 k))
  unfolding create_output_stream
  command_stream_identifiers commands results inj = Draws-Nodup own uuid _ _ inj (
      Draws-append own uuid 0 _ _ _ _ (opening-Draws commands) (
        drain-Draws own uuid (respond uuid debug client_id) (λ v. v.drawn) respond-Draws
          (opening uuid debug client_id commands).1 results))
