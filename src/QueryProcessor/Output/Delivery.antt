-- ===== src/QueryProcessor/Output/Delivery.antt =====
-- The query processor and its output stream together (src/axon_utils/query_processor.rs): two tasks
-- that share a channel.
use rusty_dendrite.Prelude.{ℕ, String, ◌≡◌, refl, ap, ◌∙◌, none, List, [], ◌∷◌, map}
use rusty_dendrite.Io.{Io, ok}
use rusty_dendrite.Runtime.{Streaming}
use rusty_dendrite.Channel.{System, Reach, start}
use rusty_dendrite.Channel.Delivery.{delivers}
use rusty_dendrite.HandlerRegistry.{TheHandlerRegistry}
use rusty_dendrite.QueryProcessor.{
  QueryProviderInbound, QueryResult, AxonQueryResult, query_processor,
}
use rusty_dendrite.QueryProcessor.Answers.{query_ids, query_processor_answers}
use rusty_dendrite.QueryProcessor.Output.{
  StreamState, QueryProviderOutbound, respond, opening, create_output_stream,
}
use rusty_dendrite.QueryProcessor.Output.Replies.{
  Told, responds, completes, told, answers_to, query_stream_permits,
}

-- The queries that a server is told to be complete.
abbrev pub completed : List Told → List String
completed [] = []
completed (responds id payload ∷ rest) = completed rest
completed (completes id ∷ rest) = id ∷ completed rest

completed-answers_to :
    (results : List AxonQueryResult)
    → completed (answers_to results) ≡ map (λ r. r.message_identifier) results
completed-answers_to [] = refl
completed-answers_to (r ∷ results) =
    ap (λ l. r.message_identifier ∷ l) (completed-answers_to results)

module _ {S Q : Type 0} (query_context : Q)
    (query_handler_registry : TheHandlerRegistry S Q QueryResult)
    (open_stream : Io S (Streaming QueryProviderInbound))
    (messages : Streaming QueryProviderInbound) (s s' : S)
    (opens : open_stream s ≡ (ok messages, s')) (uuid : ℕ → String) (client_id : String)
    (queries : List String) where
  abbrev results : List AxonQueryResult
  results = (query_processor query_context query_handler_registry open_stream s).sent

  -- The two tasks, the processor being where it sends its first result.
  abbrev pub tasks : System AxonQueryResult QueryProviderOutbound StreamState
  tasks =
      start (respond uuid client_id) (opening uuid client_id queries).1 results
        (opening uuid client_id queries).0

  -- However a running processor, whose stream was opened, and its output stream are interleaved,
  -- they can go on until every query that the processor has received is completed once, in the
  -- order of the queries, each right after the one response to it, which has the payload of its
  -- result.
  pub queries_delivered :
      {t : System AxonQueryResult QueryProviderOutbound StreamState}
      → (query_processor query_context query_handler_registry open_stream s).returned ≡ none
      → Reach (respond uuid client_id) tasks t
      → (u : System AxonQueryResult QueryProviderOutbound StreamState) × Reach
          (respond uuid client_id)
          t
          u
        × (completed (told u.yielded) ≡ query_ids messages)
        × (told u.yielded ≡ answers_to results)
  unfolding create_output_stream
  queries_delivered running r =
      let (u, q, _, e) = delivers (respond uuid client_id) _ results _ r in
      let said = ap told e ∙ (query_stream_permits uuid client_id queries results).0 in
      (
        u,
        q,
        ap completed said
            ∙ completed-answers_to results
            ∙ query_processor_answers query_context query_handler_registry open_stream messages s s'
                opens running,
        said,
      )
