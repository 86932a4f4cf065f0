-- ===== src/QueryProcessor/Output/Identifiers.antt =====
-- The identifiers of the messages of the output stream (src/axon_utils/query_processor.rs).
use mathlib.Core.List.{Nodup}
use rusty_dendrite.Prelude.{
  ℕ, ◌+◌, String, ◌≡◌, refl, Bool, true, false, Option, none, some, List, [], ◌∷◌, arith,
}
use rusty_dendrite.Prelude.Int.{ℤ}
use rusty_dendrite.Permits.{settle}
use rusty_dendrite.Identifiers.{
  IsInjective, ids_from, identifiers_of, Draws, Draws-append, drain-Draws, Draws-Nodup,
}
use rusty_dendrite.QueryProcessor.{AxonQueryResult}
use rusty_dendrite.QueryProcessor.Output.{
  StreamState, QueryProviderOutbound, OutboundRequest, subscribe, flow_control, query_response,
  query_complete, subscription, subscriptions, drawn_by, settled, grant, response, complete,
  respond, opening, create_output_stream,
}

abbrev own_ids : Option OutboundRequest → String → List String
own_ids (some (subscribe c)) id = c.message_id ∷ id ∷ []
own_ids (some (flow_control f)) id = id ∷ []
own_ids (some (query_response r)) id = r.message_identifier ∷ id ∷ []
own_ids (some (query_complete c)) id = c.message_id ∷ id ∷ []
own_ids none id = id ∷ []

abbrev own : QueryProviderOutbound → List String
own out = own_ids out.request out.instruction_id

-- The identifiers of some output: of the instructions, and of the messages that they carry.
abbrev pub identifiers : List QueryProviderOutbound → List String
identifiers = identifiers_of own

module _ (uuid : ℕ → String) (client_id : String) where
  settled-Draws :
      (n : ℕ) (r : AxonQueryResult) (d : Bool × ℤ)
      → let out = settled uuid client_id n r d in Draws own uuid n out.0 out.1.drawn
  unfolding settled grant response complete ids_from
  settled-Draws n r (true, p) = (5, refl, ground arith)
  settled-Draws n r (false, p) = (4, refl, ground arith)

  respond-Draws :
      (st : StreamState) (r : AxonQueryResult)
      → Draws own uuid st.drawn
          (respond uuid client_id st r).0
          (respond uuid client_id st r).1.drawn
  unfolding respond
  respond-Draws st r = settled-Draws st.drawn r (settle st.permits)

  subscriptions-Draws :
      (n : ℕ) (queries : List String)
      → Draws own uuid n
          (subscriptions uuid client_id n queries)
          (drawn_by uuid client_id n queries)
  unfolding subscriptions drawn_by ids_from
  subscriptions-Draws n [] = (0, omega arith, refl)
  subscriptions-Draws n (c ∷ queries) =
      Draws-append own uuid n (n + 2) _ (subscription uuid client_id n c ∷ []) _ (2, refl, refl)
        (subscriptions-Draws (n + 2) queries)

  opening-Draws :
      (queries : List String)
      → Draws own uuid 0 (opening uuid client_id queries).0 (opening uuid client_id queries).1.drawn
  unfolding opening grant ids_from
  opening-Draws queries =
      Draws-append own uuid 0 _ _ _ _ (subscriptions-Draws 0 queries) (1, refl, refl)

  -- The messages of the stream and the instructions that carry them use the identifiers that
  -- `Uuid::new_v4` gives, each one once and in the order of the calls; so where different calls give
  -- different identifiers, no identifier is used twice.
  pub query_stream_identifiers :
      (queries : List String) (results : List AxonQueryResult)
      → IsInjective uuid
      → Nodup (identifiers (create_output_stream uuid client_id queries results))
        × ((k : ℕ) × (identifiers (create_output_stream uuid client_id queries results)
              ≡ ids_from uuid 0 k))
  unfolding create_output_stream
  query_stream_identifiers queries results inj = Draws-Nodup own uuid _ _ inj (
      Draws-append own uuid 0 _ _ _ _ (opening-Draws queries) (
        drain-Draws own uuid (respond uuid client_id) (λ v. v.drawn) respond-Draws
          (opening uuid client_id queries).1 results))
