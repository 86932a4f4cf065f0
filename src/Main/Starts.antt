-- ===== src/Main/Starts.antt =====
-- What `main` of src/main.rs starts, and when.
use rusty_dendrite.Prelude.{ℕ, ◌<◌, String, ◌≡◌, refl, Option, none, some}
use rusty_dendrite.Io.{Result, ok, err, panicked, Io, pure, next}
use rusty_dendrite.Runtime.{draw_uuid}
use rusty_dendrite.Connection.{try_to_connect, wait_for_connection, wait_for_server}
use rusty_dendrite.Connection.Waits.{ConnectsAfter, wait_for_connection_returns}
use rusty_dendrite.Main.{
  Environment, AxonServerHandle, GreeterServer, Task, handle_commands, process_events,
  process_queries, run_commands, run_events, run_queries, init_command_sender, init, start, main,
}

-- The result of the program once its service has ended.
abbrev pub ended : Result (Unit {0}) → Result (Option (Unit {0}))
ended (ok _) = ok (some tt)
ended (err e) = err e
ended panicked = panicked

ended_served :
    {S : Type 0} (r : Result (Unit {0})) (s : S)
    → next (λ _. pure {S = S} (some tt)) r s ≡ (ended r, s)
ended_served (ok _) s = refl
ended_served (err e) s = refl
ended_served panicked s = refl

module _ {S C E : Type 0} (env : Environment S C E) where
  -- The handle that the tasks share: the connection, under an identifier that is drawn for it.
  abbrev pub handle_for : C → S → AxonServerHandle C
  handle_for conn s = record { display_name = (env.runtime.new_v4 s).0; conn = conn }

  init-returns :
      (fuel : ℕ) {k : ℕ} {s s' : S} {conn : C}
      → ConnectsAfter (try_to_connect env.transport "http://proxy:8124" "API") env.delay k s conn s'
      → k < fuel
      → init env fuel s ≡ (
        ok (some (record { axon_server_handle = handle_for conn s' })),
        (env.runtime.new_v4 s').1,
      )
  unfolding init init_command_sender wait_for_server draw_uuid
  init-returns fuel {k} {s} {s'} {conn} h enough =
      rw
        (wait_for_connection_returns env.transport "http://proxy:8124" "API" env.delay fuel k s s'
          conn h enough)
        refl

  init-waits :
      (fuel : ℕ) (s s' : S)
      → wait_for_connection env.transport env.delay "http://proxy:8124" "API" fuel s ≡ (ok none, s')
      → init env fuel s ≡ (ok none, s')
  unfolding init init_command_sender wait_for_server
  init-waits fuel s s' e = rw e refl

  module _ (spawn : Task S → S → S) (inner task_fuel : ℕ) (parse : String → Result (Unit {0}))
      (serve : GreeterServer C → Io S (Unit {0})) where
    -- Let `0.0.0.0:8181` be an address. If after some attempts that give nothing, each followed by a
    -- delay, one attempt gives a connection, then on any fuel above the number of those attempts the
    -- program spawns the command worker, the event processor and the query processor, in this order,
    -- each once and with the same handle, and then serves the API with that handle, and its result
    -- is that of the service.
    pub main_starts :
        (fuel k : ℕ) (s s' : S) (conn : C)
        → parse "0.0.0.0:8181" ≡ ok tt
        → ConnectsAfter
            (try_to_connect env.transport "http://proxy:8124" "API")
            env.delay
            k
            s
            conn
            s'
        → k < fuel
        → let handle = handle_for conn s' in
          let s₁ = spawn (handle_commands (run_commands env handle)) (env.runtime.new_v4 s').1 in
          let s₂ = spawn (process_events (run_events env inner task_fuel handle)) s₁ in
          let s₃ = spawn (process_queries (run_queries env inner task_fuel handle)) s₂ in
          let served = serve (record { axon_server_handle = handle }) s₃ in
          main env spawn inner task_fuel parse serve fuel s ≡ (ended served.0, served.1)
    unfolding main start
    main_starts fuel k s s' conn address h enough =
        rw (init-returns fuel h enough, address) (ended_served _ _)

    -- As long as no attempt gives a connection the program does nothing but wait.
    pub main_waits :
        (fuel : ℕ) (s s' : S)
        → wait_for_connection env.transport env.delay "http://proxy:8124" "API" fuel s
          ≡ (ok none, s')
        → main env spawn inner task_fuel parse serve fuel s ≡ (ok none, s')
    unfolding main
    main_waits fuel s s' e = rw (init-waits fuel s s' e) refl
