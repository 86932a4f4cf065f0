-- ===== src/ExampleEvent/Resumes.antt =====
-- From which token the example application resumes (src/example_event/mod.rs), when Elastic Search
-- keeps its documents.
use rusty_dendrite.Prelude.{
  String, suc, ◌⊎◌, inl, inr, map_option, ◌≡◌, refl, subst, ap, ◌∙◌, Bool, true, false, Option,
  none, some, length, if◌then◌else◌, ◌==◌,
}
use rusty_dendrite.Prelude.Int.{ℤ, pos, negsuc, ◌+i64◌}
use rusty_dendrite.Io.{
  Result, ok, err, panicked, with_context, Outcome, Io, captured, attempt, lift, pure,
  next-pure_world, ◌>>=◌, ◌>>◌,
}
use rusty_dendrite.Messages.{Bytes}
use rusty_dendrite.HashMap
use rusty_dendrite.HandlerRegistry
use rusty_dendrite.HandlerRegistry.{SubscriptionHandle, empty_handler_registry}
use rusty_dendrite.EventProcessor.{Events, hung_up, initial_token, token_after, event_processor}
use rusty_dendrite.EventProcessor.Tokens.{advance, IsTokenStore, ListsTokens}
use rusty_dendrite.EventProcessor.Tracking.{event_processor_resumes}
use rusty_dendrite.ExampleCommand.{Greeting, GreetedEvent}
use rusty_dendrite.Json.{Value, null, boolean, number, text, array, object, field}
use rusty_dendrite.ExampleEvent.{
  Elasticsearch, token_in, token_document, greeting_document, store_token, retrieve_token,
  token_store, apply_to, handle_event, event_handler_registry, process_events,
}

-- A token that was read, and -1 where there is none.
abbrev pub token_of : Result ℤ → ℤ
token_of (ok token) = token
token_of (err e) = negsuc 0
token_of panicked = negsuc 0

captured-token_in :
    (v : Value)
    → (o : Outcome ℤ) × (captured (token_in v) ≡ ok o)
      × (token_after o ≡ token_of (token_in v) +i64 pos 1)
unfolding token_in token_after
captured-token_in null = (_, refl, refl)
captured-token_in (boolean b) = (_, refl, refl)
captured-token_in (number none) = (_, refl, refl)
captured-token_in (number (some token)) = (_, refl, refl)
captured-token_in (text t) = (_, refl, refl)
captured-token_in (array vs) = (_, refl, refl)
captured-token_in (object fields) = (_, refl, refl)

module _ {S : Type 0} (es_client : Elasticsearch S) (document : S → String → String → Value) where
  -- What the program relies on of Elastic Search: a document that is put is there afterwards, the
  -- others stay, and the response for a document has its members under `_source`. A document that is
  -- not there is `Null`.
  pub record KeepsDocuments : Type 0 where
    pub puts :
        (index id : String) (v : Value) (s : S) (index' id' : String)
        → document (es_client.index index id v s).1 index' id' ≡ (
            if index == index'
            then (if id == id' then v else document s index' id')
            else document s index' id')
    pub gets :
        (index id : String) (s : S)
        → (r : Value) × (es_client.get index id s ≡ (ok r, s))
          × (field (field r "_source") "token" ≡ field (document s index id) "token")

  abbrev pub token_kept : S → ℤ
  token_kept s = token_of (token_in (field (document s "tracking-token" "greeting") "token"))

module _ {S : Type 0} (hash : String → String) (es_client : Elasticsearch S)
    (document : S → String → String → Value) (keeps : KeepsDocuments es_client document)
    (decode : Bytes → Result GreetedEvent) where
  abbrev peek : S → ℤ
  peek = token_kept es_client document

  peek-apply_to : (m : Option Greeting) (s : S) → peek (apply_to hash es_client m s).1 ≡ peek s
  unfolding apply_to
  peek-apply_to none s = refl
  peek-apply_to (some g) s =
      ap (λ v. token_of (token_in (field v "token")))
        (keeps.puts "greetings" (hash g.message) (greeting_document hash g.message) s
          "tracking-token" "greeting")

  peek-handled :
      (x : Result GreetedEvent) (s : S)
      → peek
          ((do
            event ← lift x
            handle_event hash es_client event
            pure {A = Option (Option (Elasticsearch S))} none)
            s).1
        ≡ peek s
  unfolding handle_event apply_to
  peek-handled (ok event) s =
      ap peek (next-pure_world {S = S} none _ _) ∙ peek-apply_to event.message s
  peek-handled (err e) s = refl
  peek-handled panicked s = refl

  peek-store_token : (token : ℤ) (s : S) → peek (store_token hash es_client token s) ≡ token
  unfolding store_token token_in token_document field
  peek-store_token token s =
      ap (λ v. token_of (token_in (field v "token")))
        (keeps.puts "tracking-token" "greeting" (token_document token) s "tracking-token"
          "greeting")

  retrieves :
      (s : S)
      → (o : Outcome ℤ) × (attempt (retrieve_token hash es_client) s ≡ (ok o, s))
        × (token_after o ≡ peek s +i64 pos 1)
  unfolding attempt retrieve_token
  retrieves s =
      let (r, got, same) = keeps.gets "tracking-token" "greeting" s in
      let (o, caught, after) =
        captured-token_in (field (document s "tracking-token" "greeting") "token") in
      (o, rw (got, same, caught) refl, after)

  found_handle :
      (b : Bool) (g h : SubscriptionHandle S (Elasticsearch S) (Option (Elasticsearch S)))
      → (if b then some g else none) ≡ some h
      → g ≡ h
  found_handle true g h e = cc
  found_handle false g h e = absurd (cc)

  keeps_token :
      (name : String) (h : SubscriptionHandle S (Elasticsearch S) (Option (Elasticsearch S)))
      (buf : Bytes) (s : S)
      → HandlerRegistry.get (event_handler_registry hash es_client decode) name ≡ some h
      → peek (h.handle buf es_client s).1 ≡ peek s
  unfolding event_handler_registry HandlerRegistry.insert HandlerRegistry.get HashMap.get
      HashMap.insert HashMap.contains_key empty_handler_registry
  keeps_token name h buf s found =
      subst (λ g. peek (g.handle buf es_client s).1 ≡ peek s)
        (found_handle ("GreetedEvent" == name) _ h found) (peek-handled (decode buf) s)

  pub query_model-IsTokenStore :
      IsTokenStore
        (token_store hash es_client)
        es_client
        (event_handler_registry hash es_client decode)
        (token_kept es_client document)
  unfolding token_store
  query_model-IsTokenStore = record {
    retrieves = retrieves;
    stores = peek-store_token;
    kept = keeps_token;
  }

  -- The run of the event processor that `process_events` starts.
  pub process_events-world :
      (list_events : ℤ → Io S Events) (s : S)
      → let r = process_events hash es_client decode list_events s in
        let run =
          event_processor
            (token_store hash es_client)
            es_client
            (event_handler_registry hash es_client decode)
            list_events
            s in
        (r.world ≡ run.world)
        × (r.processed ≡ run.processed)
        × (r.returned
            ≡ map_option (λ x. with_context x "Error while handling commands") run.returned)
  unfolding process_events HandlerRegistry.insert empty_handler_registry HashMap.contains_key
      HashMap.insert
  process_events-world list_events s = (refl, refl, refl)

  -- No event of the example application is passed over: when Elastic Search keeps its documents and the
  -- server streams events under consecutive tokens from the one that it is asked for, the initial token
  -- of a next run is the one after the events that were reported as processed, however the run ended;
  -- but where it ended because the receiver of its reports was lost, it may be the one after that, whose
  -- event was handled and its token stored before its report failed.
  pub example_events_resume :
      (list_events : ℤ → Io S Events)
      (server : ListsTokens
        (token_store hash es_client)
        es_client
        (event_handler_registry hash es_client decode)
        (token_kept es_client document)
        list_events)
      (n : ℤ) (s : S)
      → initial_token (token_store hash es_client) s ≡ (ok n, s)
      → let r = process_events hash es_client decode list_events s in
        (initial_token (token_store hash es_client) r.world
          ≡ (ok (advance n (length r.processed)), r.world))
        ⊎ ((r.returned ≡ some (with_context (err hung_up) "Error while handling commands"))
            × (initial_token (token_store hash es_client) r.world
                ≡ (ok (advance n (suc (length r.processed))), r.world)))
  example_events_resume list_events server n s e =
      let (world, processed, returned) = process_events-world list_events s in
      rw (world, processed, returned)
        (elim (event_processor_resumes (token_store hash es_client) es_client
          (event_handler_registry hash es_client decode) (token_kept es_client document)
          query_model-IsTokenStore list_events server n s e) [
            | inl starts ↦ inl starts
            | inr (ended, starts) ↦ inr (
              ap (map_option (λ x. with_context x "Error while handling commands")) ended,
              starts,
            )
          ])
