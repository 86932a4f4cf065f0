-- ===== src/Main/Tasks.antt =====
-- How the tasks that `main` of src/main.rs spawns come to run and end.
use rusty_dendrite.Prelude.{ℕ, ◌<◌, String, ◌≡◌, Option, none, some, List}
use rusty_dendrite.Prelude.Int.{ℤ}
use rusty_dendrite.Io.{Result, ok, err, panicked, Error}
use rusty_dendrite.EventProcessor.{Events, initial_token}
use rusty_dendrite.Connection.Elastic.{AnswersAfter, wait_for_elastic_search_returns}
use rusty_dendrite.ExampleCommand.Spec.{GreeterEvent}
use rusty_dendrite.ExampleApi.Greetings.{greeted_in}
use rusty_dendrite.ExampleEvent.{token_store}
use rusty_dendrite.ExampleEvent.Resumes.{KeepsDocuments}
use rusty_dendrite.ExampleEvent.Indexes.{Delivers, reported, indexed, greetings_indexed}
use rusty_dendrite.Json.{Value}
use rusty_dendrite.Main.{
  Environment, AxonServerHandle, swallowed, run_commands, run_events, run_queries, events_behind,
}

swallowed-ne-err : (r : Option (Result (Unit {0}))) (e : Error) → ¬ (swallowed r ≡ some (err e))
unfolding swallowed
swallowed-ne-err none e h = cc
swallowed-ne-err (some (ok _)) e h = cc h
swallowed-ne-err (some (err x)) e h = cc h
swallowed-ne-err (some panicked) e h = cc h

module _ {S C E : Type 0} (env : Environment S C E) (handle : AxonServerHandle C) where
  -- No task ends with an error, whatever its streams, its handlers and Elastic Search do: it runs, or it
  -- ends as if all were well, or it panics.
  pub tasks_hide_errors :
      (inner fuel : ℕ) (s : S) (e : Error)
      → ¬ ((run_commands env handle s).returned ≡ some (err e))
        × ¬ ((run_events env inner fuel handle s).returned ≡ some (err e))
        × ¬ ((run_queries env inner fuel handle s).returned ≡ some (err e))
  unfolding run_commands run_events run_queries
  tasks_hide_errors inner fuel s e =
      (swallowed-ne-err _ e, swallowed-ne-err _ e, swallowed-ne-err _ e)

  -- Let Elastic Search keep its documents, and let a node of it answer after some attempts that fail
  -- and be ready after some looks at its status, with fuel enough for both. Let the server then open,
  -- for the token that is kept, a stream of events of the greeter that stand for a history, possibly
  -- up to an error of the stream, and let the receiver of the reports be there for each of them. Then
  -- the task of the event processor reports each of those events, under its identifier and in their
  -- order, and the greetings of the history are put into the index of greetings in their order, each under
  -- its hash.
  pub run_events-indexes :
      (document : S → String → String → Value) (inner fuel k : ℕ) (client : E) (messages : Events)
      (vs : List GreeterEvent) (n : ℤ) (s s₁ s' : S)
      → KeepsDocuments (env.indexer client) document
      → AnswersAfter env.elastic env.delay inner k s client s₁
      → k < fuel
      → initial_token (token_store env.hash (env.indexer client)) s₁ ≡ (ok n, s₁)
      → env.list_events handle.conn n s₁ ≡ (ok messages, s')
      → Delivers env.codecs messages vs
      → let r = run_events env inner fuel handle s in
        (r.processed ≡ reported messages)
        × ((id : String)
            → document r.world "greetings" id
              ≡ indexed env.hash (greeted_in vs) id (document s' "greetings" id))
  unfolding run_events events_behind
  run_events-indexes document inner fuel k client messages vs n s s₁ s' keeps comes enough token
        opens d =
      rw (wait_for_elastic_search_returns env.elastic env.delay inner fuel comes enough) (
        greetings_indexed env.hash (env.indexer client) document keeps env.codecs
          (env.list_events handle.conn) messages vs n s₁ s' token opens d)
