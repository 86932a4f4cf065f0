-- ===== src/EventProcessor/Outstanding.antt =====
-- The events that the server may send while the event processor and its stream of requests run as two
-- tasks (src/axon_utils/event_processor.rs).
use rusty_dendrite.Prelude.{
  ◌+◌, ◌≤◌, String, ◌≡◌, sym, subst, ap, ◌∙◌, refl, append-nil, Bool, true, false, List, [], ◌∷◌,
  ◌++◌, All, length,
}
use rusty_dendrite.Prelude.Int.{ℤ}
use rusty_dendrite.Channel.{System, Reach, start, capacity, left}
use rusty_dendrite.Channel.Received.{Reach-Received, Reach-Outbox}
use rusty_dendrite.Permits.{initial_permits, settle}
use rusty_dendrite.EventProcessor.{
  AxonEventProcessed, GetEventsRequest, events_request, requested, request_more,
  create_output_stream,
}
use rusty_dendrite.EventProcessor.Requests.{granted, SameTracker, events_requests_permits}

module _ (client_id : String) (token : ℤ) where
  -- A round yields one request at most.
  left-requested : (d : Bool × ℤ) → left (requested client_id token d).0 ≡ []
  unfolding requested
  left-requested (true, p) = refl
  left-requested (false, p) = refl

  left-request_more :
      (p : ℤ) (a : AxonEventProcessed) → left (request_more client_id token p a).0 ≡ []
  unfolding request_more
  left-request_more p a = left-requested (settle p)

  -- At every moment of a run of the two tasks, however their steps are interleaved, the channel has ten
  -- processed events at most, and the stream has taken notice of a first part of the processed
  -- events, the rest being in the channel or not yet sent; its requests all carry the initial token
  -- and the client's name, and the permits that they have granted to the server are at least four
  -- and at most six more than the events that it has taken notice of.
  pub events_outstanding :
      (processed : List AxonEventProcessed) {t : System AxonEventProcessed GetEventsRequest ℤ}
      → Reach
          (request_more client_id token)
          (start
            (request_more client_id token)
            initial_permits
            processed
            (events_request client_id token initial_permits ∷ []))
          t
      → (length t.buffer ≤ capacity)
        × ((received : List AxonEventProcessed) × (processed ≡ received ++ (t.buffer ++ t.pending))
            × All (SameTracker client_id token) t.yielded
            × (length received + 4 ≤ granted t.yielded)
            × (granted t.yielded ≤ length received + 6))
  unfolding create_output_stream
  events_outstanding processed {t} r =
      let (bounded, (received, (all, said, _))) =
        Reach-Received (request_more client_id token) _ processed _ r in
      let none_left =
        Reach-Outbox (request_more client_id token) (λ p bs. bs ≡ [])
          (λ p a none_left. left-request_more p a) (λ p b bs none_left. absurd (cc none_left)) _
          processed _ refl r in
      let told : t.yielded ≡ create_output_stream client_id token received =
        sym (append-nil t.yielded) ∙ ap (λ l. t.yielded ++ l) (sym none_left) ∙ said in
      let (same, low, high) =
        subst
          (λ (out : List GetEventsRequest).
            All (SameTracker client_id token) out
            × (length received + 4 ≤ granted out)
            × (granted out ≤ length received + 6))
          (sym told) (events_requests_permits client_id token received) in
      (bounded, (received, all, same, low, high))
