-- ===== src/ExampleCommand/Spec.antt =====
-- What the greeter is meant to do, with no reference to payloads, registries or the event store: a
-- recorder that is on or off, its commands, its events and its replies (src/example_command/mod.rs,
-- proto/grpc_example.proto).
use rusty_dendrite.Prelude.{
  String, ◌<>◌, ◌≡◌, refl, ◌∙◌, Bool, true, false, Option, List, [], ◌∷◌, ◌++◌, ◌==◌, arith,
  if◌then◌else◌,
}
use rusty_dendrite.ExampleCommand.{Greeting, greeting_text}

pub data GreeterCommand : Type 0 where
  greet : Option Greeting → GreeterCommand
  start stop : GreeterCommand

pub data GreeterEvent : Type 0 where
  greeted : Option Greeting → GreeterEvent
  started stopped : GreeterEvent

pub data Reply : Type 0 where
  acknowledged : String → Reply
  done nothing refused : Reply

-- Whether the recorder is on after some events.
unfoldable pub recording : Bool → List GreeterEvent → Bool
recording b [] = b
recording b (greeted m ∷ events) = recording b events
recording b (started ∷ events) = recording true events
recording b (stopped ∷ events) = recording false events

pub recording-cons :
    (b : Bool) (v : GreeterEvent) (vs : List GreeterEvent)
    → recording (recording b (v ∷ [])) vs ≡ recording b (v ∷ vs)
unfolding recording
recording-cons b (greeted m) vs = refl
recording-cons b started vs = refl
recording-cons b stopped vs = refl

-- What a command does when the recorder is on or off.
unfoldable pub decide : Bool → GreeterCommand → Reply × List GreeterEvent
decide true (greet m) =
    if greeting_text m == "ERROR"
    then (refused, [])
    else (acknowledged ("ACK! " <> greeting_text m), greeted m ∷ [])
decide false (greet m) = (nothing, [])
decide true start = (nothing, [])
decide false start = (done, started ∷ [])
decide true stop = (done, stopped ∷ [])
decide false stop = (nothing, [])

-- A history in which the recorder is started only when it is off, stopped only when it is on, and
-- greeted only when it is on.
abbrev pub IsCoherent : Bool → List GreeterEvent → Type 0
IsCoherent b [] = Unit
IsCoherent b (greeted m ∷ events) = (b ≡ true) × IsCoherent b events
IsCoherent b (started ∷ events) = (b ≡ false) × IsCoherent true events
IsCoherent b (stopped ∷ events) = (b ≡ true) × IsCoherent false events

IsCoherent-append :
    (b : Bool) (xs ys : List GreeterEvent)
    → IsCoherent b xs
    → IsCoherent (recording b xs) ys
    → IsCoherent b (xs ++ ys)
unfolding recording
IsCoherent-append b [] ys hx hy = hy
IsCoherent-append b (greeted m ∷ xs) ys hx hy = (hx.0, IsCoherent-append b xs ys hx.1 hy)
IsCoherent-append b (started ∷ xs) ys hx hy = (hx.0, IsCoherent-append true xs ys hx.1 hy)
IsCoherent-append b (stopped ∷ xs) ys hx hy = (hx.0, IsCoherent-append false xs ys hx.1 hy)

decide-IsCoherent : (b : Bool) (c : GreeterCommand) → IsCoherent b (decide b c).1
unfolding decide
decide-IsCoherent true (greet m) = ground arith
decide-IsCoherent false (greet m) = tt
decide-IsCoherent true start = tt
decide-IsCoherent false start = (refl, tt)
decide-IsCoherent true stop = (refl, tt)
decide-IsCoherent false stop = tt

-- A command extends a coherent history to a coherent one.
pub history-IsCoherent :
    (events : List GreeterEvent) (c : GreeterCommand)
    → IsCoherent true events
    → IsCoherent true (events ++ (decide (recording true events) c).1)
history-IsCoherent events c h =
    IsCoherent-append true events _ h (decide-IsCoherent (recording true events) c)

recording-append :
    (b : Bool) (xs ys : List GreeterEvent) → recording b (xs ++ ys) ≡ recording (recording b xs) ys
unfolding recording
recording-append b [] ys = refl
recording-append b (greeted m ∷ xs) ys = recording-append b xs ys
recording-append b (started ∷ xs) ys = recording-append true xs ys
recording-append b (stopped ∷ xs) ys = recording-append false xs ys

recording-decide :
    (b : Bool) → (recording b (decide b start).1 ≡ true) × (recording b (decide b stop).1 ≡ false)
unfolding recording decide
recording-decide true = (refl, refl)
recording-decide false = (refl, refl)

-- The recorder is on after a start and off after a stop, however it was before.
pub recording-start :
    (vs : List GreeterEvent) → recording true (vs ++ (decide (recording true vs) start).1) ≡ true
recording-start vs = recording-append true vs _ ∙ (recording-decide (recording true vs)).0

pub recording-stop :
    (vs : List GreeterEvent) → recording true (vs ++ (decide (recording true vs) stop).1) ≡ false
recording-stop vs = recording-append true vs _ ∙ (recording-decide (recording true vs)).1
