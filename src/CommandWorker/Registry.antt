-- ===== src/CommandWorker/Registry.antt =====
-- `TheAggregateRegistry` of src/axon_utils/command_worker.rs.
pub mod Owners
pub mod Order
mod Tests
use rusty_dendrite.Prelude.{String, Option, none, some, List, [], ◌∷◌, ◌++◌}
use rusty_dendrite.HashMap
use rusty_dendrite.HashMap.{HashMap}
use rusty_dendrite.CommandWorker.Aggregate.{AggregateHandle}

pub record TheAggregateRegistry (S : Type 0) : Type 0 where
  pub handlers : HashMap (AggregateHandle S)

-- The two collections that `register` fills: the names of the commands, and the aggregate of each.
pub record Registered : Type 0 where
  pub commands : List String
  pub command_to_aggregate_mapping : HashMap String

unfoldable pub register_command : String → String → Registered → Registered
register_command aggregate_name command_name acc = record {
  commands = acc.commands ++ command_name ∷ [];
  command_to_aggregate_mapping =
      HashMap.insert acc.command_to_aggregate_mapping command_name aggregate_name;
}

unfoldable pub register_commands : String → List String → Registered → Registered
register_commands aggregate_name [] acc = acc
register_commands aggregate_name (command_name ∷ rest) acc =
    register_commands aggregate_name rest (register_command aggregate_name command_name acc)

module _ {S : Type 0} where
  unfoldable pub empty_aggregate_registry : TheAggregateRegistry S
  empty_aggregate_registry = record { handlers = [] }

  -- An aggregate that is registered again replaces the one that was there.
  unfoldable pub insert : TheAggregateRegistry S → AggregateHandle S → TheAggregateRegistry S
  insert self handle = record { handlers = HashMap.insert self.handlers handle.name handle }

  unfoldable pub get : TheAggregateRegistry S → String → Option (AggregateHandle S)
  get self name = HashMap.get self.handlers name

  register_aggregates : HashMap (AggregateHandle S) → Registered → Registered
  register_aggregates [] acc = acc
  register_aggregates ((aggregate_name, handle) ∷ rest) acc =
      register_aggregates rest (register_commands aggregate_name handle.command_names acc)

  unfoldable pub register : TheAggregateRegistry S → Registered → Registered
  unfolding register_aggregates register_commands register_command
  register self acc = register_aggregates self.handlers acc

  -- What `command_worker` registers.
  unfoldable pub registered : TheAggregateRegistry S → Registered
  unfolding register
  registered self = register self (record { commands = []; command_to_aggregate_mapping = [] })

  -- The two nested `if let`s by which `command_worker` finds the aggregate of a command.
  unfoldable pub find_aggregate :
      TheAggregateRegistry S → HashMap String → String → Option (AggregateHandle S)
  find_aggregate self mapping command_name = elim (HashMap.get mapping command_name) [
    | none ↦ none
    | some aggregate_name ↦ get self aggregate_name
  ]
