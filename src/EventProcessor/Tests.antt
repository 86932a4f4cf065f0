-- ===== src/EventProcessor/Tests.antt =====
-- Tests of the tracking event processor (src/axon_utils/event_processor.rs) in a sample world.
use rusty_dendrite.Prelude.{
  String, suc, ◌⊎◌, ◌+◌, ◌≤◌, ◌≡◌, ◌++◌, refl, subst, inl, inr, Bool-cases, ◌==◌, arith, false,
  Option, none, some, List, [], ◌∷◌, length, All,
}
use rusty_dendrite.Prelude.Int.{ℤ, pos, ◌+i64◌, ◌-i64◌}
use rusty_dendrite.Io.{done, Io, lift, ok, err, message, attempt}
use rusty_dendrite.Messages.{Bytes}
use rusty_dendrite.HandlerRegistry
use rusty_dendrite.HandlerRegistry.{SubscriptionHandle, TheHandlerRegistry}
use rusty_dendrite.HashMap
use rusty_dendrite.HashMap.{HashMap}
use rusty_dendrite.EventProcessor.{
  Events, item, unheard, unheard_round, unheard_and, hung_up, end_of_stream, token_after,
  event_processor, EventWithToken, AxonEventProcessed, initial_token, round, process_event,
  handle_payload, and_then, event_loop, GetEventsRequest, events_request, request_more,
}
use rusty_dendrite.EventProcessor.Requests.{granted, SameTracker}
use rusty_dendrite.EventProcessor.Outstanding.{events_outstanding}
use rusty_dendrite.Channel.{System, Reach, here, next, send, receive, start, capacity}
use rusty_dendrite.Permits.{initial_permits, settle}
use rusty_dendrite.EventProcessor.Tokens.{advance, IsTokenStore, ListsTokens}
use rusty_dendrite.EventProcessor.Tracking.{event_processor_resumes}
use rusty_dendrite.Sample.World.{World, sample_token_store}

-- The events up to token 4 have been processed.
abbrev resumed_world : World
resumed_world = record { stored = []; drawn = 0; clock = 7; token = pos 4 }

-- A handler that counts the events that it handles by the clock, and one that fails.
abbrev counting : SubscriptionHandle World String (Option String)
counting = record {
  name = "Counted";
  handle = λ buf query_model s. (ok none, record s { clock = s.clock + 1 });
}

abbrev failing : SubscriptionHandle World String (Option String)
failing = record { name = "Broken"; handle = λ buf query_model s. (err (message "broken"), s) }

abbrev registry : TheHandlerRegistry World String (Option String)
registry = record { handlers = ("Counted", counting) ∷ ("Broken", failing) ∷ [] }

abbrev Keeps : SubscriptionHandle World String (Option String) → Type 0
Keeps h = (buf : Bytes) (s : World) → (h.handle buf "model" s).1.token ≡ s.token

get-Keeps :
    (handlers : HashMap (SubscriptionHandle World String (Option String))) (name : String)
    (h : SubscriptionHandle World String (Option String))
    → All (λ e. Keeps e.1) handlers
    → HashMap.get handlers name ≡ some h
    → Keeps h
unfolding HashMap.get
get-Keeps [] name h keep found = absurd (cc)
get-Keeps ((j, g) ∷ handlers) name h keep found = elim (Bool-cases (j == name)) [
  | inl same ↦ (let e : g ≡ h = ground arith in subst Keeps e keep.0)
  | inr other ↦ get-Keeps handlers name h keep.1 (ground arith)
]

sample-IsTokenStore : IsTokenStore sample_token_store "model" registry (λ s. s.token)
unfolding HandlerRegistry.get token_after attempt
sample-IsTokenStore = record {
  retrieves = λ s. (done s.token, refl, refl);
  stores = λ token s. refl;
  kept = λ name h buf s found.
      get-Keeps registry.handlers name h ((λ buf s. refl), ((λ buf s. refl), tt)) found buf s;
}

abbrev event_at : ℤ → String → EventWithToken
event_at token type = record {
  token = token;
  event = some (record {
    message_identifier = type;
    aggregate_identifier = "xxx";
    aggregate_sequence_number = pos 0;
    aggregate_type = "Greeting";
    timestamp = pos 0;
    payload = some (record { type = type; revision = ""; bytes = [] });
    snapshot = false;
  });
}

-- A server with three events more; the handler of the third one fails.
abbrev messages_from : ℤ → Events
messages_from n =
    item (event_at n "Counted")
    ∷ end_of_stream
    ∷ item (event_at (n +i64 pos 1) "Unknown")
    ∷ item (event_at (n +i64 pos 1 +i64 pos 1) "Broken")
    ∷ []

abbrev list_events : ℤ → Io World Events
list_events n = lift (ok (messages_from n))

list_events-ListsTokens : ListsTokens sample_token_store "model" registry (λ s. s.token) list_events
list_events-ListsTokens n s = (
  messages_from n,
  s,
  refl,
  inr ((_, refl), refl, inr ((_, refl), refl, inr ((_, refl), refl, tt))),
  refl,
)

resumed_world-initial_token :
    initial_token sample_token_store resumed_world ≡ (ok (pos 5), resumed_world)
unfolding initial_token attempt ◌+i64◌
resumed_world-initial_token = refl

event_processor_resumes_example :
    let r = event_processor sample_token_store "model" registry list_events resumed_world in
    (initial_token sample_token_store r.world
      ≡ (ok (advance (pos 5) (length r.processed)), r.world))
    ⊎ ((r.returned ≡ some (err hung_up))
        × (initial_token sample_token_store r.world
            ≡ (ok (advance (pos 5) (suc (length r.processed))), r.world)))
event_processor_resumes_example =
    event_processor_resumes sample_token_store "model" registry (λ s. s.token) sample-IsTokenStore
      list_events list_events-ListsTokens (pos 5) resumed_world resumed_world-initial_token

-- The receiver is lost at the second event: one event is reported, and the tokens of two are stored.
processed-unheard :
    let r =
      event_loop sample_token_store "model" registry
        (item (event_at (pos 5) "Counted") ∷ unheard (event_at (pos 6) "Counted") ∷ [])
        resumed_world in
    (length r.processed ≡ 1) × (r.returned ≡ some (err hung_up)) × (r.world.token ≡ pos 6)
unfolding event_loop round process_event handle_payload and_then HandlerRegistry.get HashMap.get
    unheard_round unheard_and
processed-unheard = (refl, refl, refl)

-- Two events have been processed, and the third one has ended the loop.
processed-two :
    let r = event_loop sample_token_store "model" registry (messages_from (pos 5)) resumed_world in
    (length r.processed ≡ 2) × (r.returned ≡ some (err (message "broken")))
unfolding event_loop round process_event handle_payload and_then HandlerRegistry.get HashMap.get
processed-two = (refl, refl)

abbrev event_a : AxonEventProcessed
event_a = record { message_identifier = "a" }

abbrev event_b : AxonEventProcessed
event_b = record { message_identifier = "b" }

abbrev event_c : AxonEventProcessed
event_c = record { message_identifier = "c" }

-- The first event is noticed, the second one is in the channel, and the third one not yet sent.
abbrev halfway : System AxonEventProcessed GetEventsRequest ℤ
halfway = record {
  pending = event_c ∷ [];
  buffer = event_b ∷ [];
  variables = (request_more "client" (pos 5) initial_permits event_a).1;
  yielded =
      (events_request "client" (pos 5) initial_permits ∷ [])
      ++ (request_more "client" (pos 5) initial_permits event_a).0;
  outbox = [];
}

reached :
    Reach
      (request_more "client" (pos 5))
      (start
        (request_more "client" (pos 5))
        initial_permits
        (event_a ∷ event_b ∷ event_c ∷ [])
        (events_request "client" (pos 5) initial_permits ∷ []))
      halfway
unfolding request_more settle ◌-i64◌ initial_permits
reached =
    next
      (next (next here (send event_a (event_b ∷ event_c ∷ []) [] _ _ [] (omega arith)))
        (receive event_a (event_b ∷ event_c ∷ []) [] _ _))
      (send event_b (event_c ∷ []) [] _ _ [] (omega arith))

events_outstanding_example :
    (length halfway.buffer ≤ capacity)
    × ((received : List AxonEventProcessed) × (event_a ∷ event_b ∷ event_c ∷ []
          ≡ received ++ (halfway.buffer ++ halfway.pending))
        × All (SameTracker "client" (pos 5)) halfway.yielded
        × (length received + 4 ≤ granted halfway.yielded)
        × (granted halfway.yielded ≤ length received + 6))
events_outstanding_example =
    events_outstanding "client" (pos 5) (event_a ∷ event_b ∷ event_c ∷ []) reached
