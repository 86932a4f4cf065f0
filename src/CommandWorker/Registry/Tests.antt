-- ===== src/CommandWorker/Registry/Tests.antt =====
-- Tests of the registry of aggregates (src/axon_utils/command_worker.rs).
use mathlib.Core.List.{Perm, Permᴰ}
use rusty_dendrite.Prelude.{
  String, ◌≡◌, refl, sym, subst, ◌⊎◌, inl, inr, true, false, none, some, List, [], ◌∷◌, contains,
  Bool-cases, ◌==◌, eq_iff,
}
use rusty_dendrite.Io.{pure}
use rusty_dendrite.HashMap
use rusty_dendrite.HashMap.{Distinct}
use rusty_dendrite.CommandWorker.Aggregate.{AggregateHandle}
use rusty_dendrite.CommandWorker.Registry.{TheAggregateRegistry, registered, find_aggregate}
use rusty_dendrite.CommandWorker.Registry.Owners.{find_aggregate-cases}
use rusty_dendrite.CommandWorker.Registry.Order.{Exclusive, registered-any_order}
use rusty_dendrite.Sample.World.{World}

-- An aggregate that does nothing.
abbrev handling : String → List String → AggregateHandle World
handling name command_names = record {
  name = name;
  handle = λ c client. pure none;
  command_names = command_names;
}

abbrev registry : TheAggregateRegistry World
registry = record {
  handlers = ("A", handling "A" ("open" ∷ "close" ∷ [])) ∷ ("B", handling "B" ("break" ∷ [])) ∷ [];
}

registry-Distinct : Distinct registry.handlers
unfolding HashMap.contains_key
registry-Distinct = (refl, (refl, tt))

find_aggregate-cases_example :
    ((contains (registered registry).commands "break" ≡ true)
      × ((h : AggregateHandle World) × (find_aggregate registry
              (registered registry).command_to_aggregate_mapping
              "break"
            ≡ some h)
          × (contains h.command_names "break" ≡ true)))
    ⊎ ((contains (registered registry).commands "break" ≡ false)
        × (find_aggregate registry (registered registry).command_to_aggregate_mapping "break"
            ≡ none))
find_aggregate-cases_example = find_aggregate-cases registry "break" registry-Distinct

-- The same aggregates, in the other order.
abbrev reordered : TheAggregateRegistry World
reordered = record {
  handlers = ("B", handling "B" ("break" ∷ [])) ∷ ("A", handling "A" ("open" ∷ "close" ∷ [])) ∷ [];
}

other_commands :
    (c : String) → contains ("open" ∷ "close" ∷ []) c ≡ true → contains ("break" ∷ []) c ≡ false
unfolding contains
other_commands c e = elim (Bool-cases ("break" == c)) [
  | inl same ↦
      let e' : contains ("open" ∷ "close" ∷ []) "break" ≡ true =
        subst (λ x. contains ("open" ∷ "close" ∷ []) x ≡ true) (sym ((eq_iff "break" c).0 same))
          e in
      cc
  | inr other ↦ rw other refl
]

registry-Exclusive : Exclusive registry.handlers
unfolding contains
registry-Exclusive = (other_commands, ((λ c e. refl), tt))

registered-any_order_example :
    Perm (registered registry).commands (registered reordered).commands
    × ((c : String)
        → find_aggregate registry (registered registry).command_to_aggregate_mapping c
          ≡ find_aggregate reordered (registered reordered).command_to_aggregate_mapping c)
registered-any_order_example =
    registered-any_order registry reordered (Permᴰ.swap refl refl) registry-Distinct
      registry-Exclusive
