-- ===== src/EventProcessor/Requests.antt =====
-- The requests of the tracking event processor (src/axon_utils/event_processor.rs).
use rusty_dendrite.Prelude.{
  ℕ, ◌+◌, ◌≤◌, String, ◌≡◌, refl, sym, subst, ap, Bool, true, false, List, [], ◌∷◌, ◌++◌, arith,
  length, All, All-append,
}
use rusty_dendrite.Prelude.Int.{ℤ, pos_part}
use rusty_dendrite.Channel.{drain}
use rusty_dendrite.Permits.{
  initial_permits, settle, Balanced, granted_by, settle-Balanced, Balanced-bounds,
  initial_permits_lem,
}
use rusty_dendrite.EventProcessor.{
  GetEventsRequest, AxonEventProcessed, events_request, requested, request_more,
  create_output_stream,
}

-- The permits that some requests grant to the server.
abbrev pub granted : List GetEventsRequest → ℕ
granted [] = 0
granted (r ∷ rest) = pos_part r.number_of_permits + granted rest

granted-append : (xs ys : List GetEventsRequest) → granted (xs ++ ys) ≡ granted xs + granted ys
granted-append [] ys = omega arith
granted-append (x ∷ xs) ys = omega (arith, granted-append xs ys)

module _ (client_id : String) (token : ℤ) where
  abbrev pub SameTracker : GetEventsRequest → Type 0
  SameTracker r = (r.tracking_token ≡ token) × (r.client_id ≡ client_id)

  requested_lem :
      (d : Bool × ℤ)
      → ((requested client_id token d).1 ≡ d.1)
        × (granted (requested client_id token d).0 ≡ granted_by d.0)
        × All SameTracker (requested client_id token d).0
  unfolding requested events_request
  requested_lem (true, p) = (refl, omega arith, ((refl, refl), tt))
  requested_lem (false, p) = (refl, refl, tt)

  drain_lem :
      (p : ℤ) (processed : List AxonEventProcessed)
      → Balanced p
      → let out = drain (request_more client_id token) p processed in
        Balanced out.1
        × (granted out.0 + pos_part p ≡ pos_part out.1 + length processed)
        × All SameTracker out.0
  unfolding drain request_more
  drain_lem p [] b = (b, omega arith, tt)
  drain_lem p (x ∷ processed) b =
      let (kept, given, same) = requested_lem (settle p) in
      let (b', e) = settle-Balanced p b in
      let (b'', e', same') =
        drain_lem (requested client_id token (settle p)).1 processed
          (subst Balanced (sym kept) b') in
      (
        b'',
        omega (
          arith,
          given,
          e,
          e',
          ap pos_part kept,
          granted-append (requested client_id token (settle p)).0
              (drain (request_more client_id token) (requested client_id token (settle p)).1
                processed).0,
        ),
        All-append SameTracker (requested client_id token (settle p)).0 _ same same',
      )

  -- The requests all carry the initial token and the client's name; and after each processed event
  -- the permits that they have granted to the server are at least four and at most six more than the
  -- events processed.
  pub events_requests_permits :
      (processed : List AxonEventProcessed)
      → let out = create_output_stream client_id token processed in
        All SameTracker out
        × (length processed + 4 ≤ granted out)
        × (granted out ≤ length processed + 6)
  unfolding create_output_stream events_request
  events_requests_permits processed =
      let (b, e, same) = drain_lem initial_permits processed initial_permits_lem.0 in
      let bounds = Balanced-bounds _ b in
      (
        ((refl, refl), same),
        omega (arith, e, bounds, initial_permits_lem.1),
        omega (arith, e, bounds, initial_permits_lem.1),
      )
