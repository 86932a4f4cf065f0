-- ===== src/CommandWorker/Registry/Owners.antt =====
-- Which aggregate the command worker finds for a command (src/axon_utils/command_worker.rs).
use rusty_dendrite.Prelude.{
  String, ◌≡◌, refl, sym, subst, ap, ◌∙◌, ◌⊎◌, inl, inr, true, false, Option, none, some, List, [],
  ◌∷◌, ◌++◌, append_assoc, append-nil, arith, eq_iff, eq_refl, if◌then◌else◌, or_else, is_some,
  contains, contains-append, Bool-cases, Option-cases,
}
use rusty_dendrite.HashMap
use rusty_dendrite.HashMap.{HashMap, get-insert, contains_key-eq, Distinct}
use rusty_dendrite.CommandWorker.Aggregate.{AggregateHandle}
use rusty_dendrite.CommandWorker.Registry.{
  TheAggregateRegistry, Registered, register_command, register_commands, register_aggregates,
  register, registered, get, find_aggregate,
}

mapping-register_commands :
    (a : String) (names : List String) (acc : Registered) (c : String)
    → HashMap.get (register_commands a names acc).command_to_aggregate_mapping c
      ≡ (if contains names c then some a else HashMap.get acc.command_to_aggregate_mapping c)
unfolding register_commands register_command contains
mapping-register_commands a [] acc c = refl
mapping-register_commands a (n ∷ names) acc c = ground (
  arith,
  mapping-register_commands a names (register_command a n acc) c,
  get-insert acc.command_to_aggregate_mapping n c a,
)

commands-register_commands :
    (a : String) (names : List String) (acc : Registered)
    → (register_commands a names acc).commands ≡ acc.commands ++ names
unfolding register_commands register_command
commands-register_commands a [] acc = sym (append-nil acc.commands)
commands-register_commands a (n ∷ names) acc =
    commands-register_commands a names (register_command a n acc)
    ∙ append_assoc acc.commands (n ∷ []) names

module _ {S : Type 0} where
  -- The last aggregate, in the order of the iteration, that handles a command.
  abbrev pub owner : HashMap (AggregateHandle S) → String → Option String
  owner [] c = none
  owner ((a, h) ∷ rest) c =
      or_else (owner rest c) (if contains h.command_names c then some a else none)

  abbrev pub all_commands : HashMap (AggregateHandle S) → List String
  all_commands [] = []
  all_commands ((a, h) ∷ rest) = h.command_names ++ all_commands rest

  mapping-register_aggregates :
      (m : HashMap (AggregateHandle S)) (acc : Registered) (c : String)
      → HashMap.get (register_aggregates m acc).command_to_aggregate_mapping c
        ≡ or_else (owner m c) (HashMap.get acc.command_to_aggregate_mapping c)
  unfolding register_aggregates
  mapping-register_aggregates [] acc c = refl
  mapping-register_aggregates ((a, h) ∷ m) acc c = ground (
    arith,
    mapping-register_aggregates m (register_commands a h.command_names acc) c,
    mapping-register_commands a h.command_names acc c,
  )

  commands-register_aggregates :
      (m : HashMap (AggregateHandle S)) (acc : Registered)
      → (register_aggregates m acc).commands ≡ acc.commands ++ all_commands m
  unfolding register_aggregates
  commands-register_aggregates [] acc = sym (append-nil acc.commands)
  commands-register_aggregates ((a, h) ∷ m) acc =
      commands-register_aggregates m (register_commands a h.command_names acc)
      ∙ ap (λ l. l ++ all_commands m) (commands-register_commands a h.command_names acc)
      ∙ append_assoc acc.commands h.command_names (all_commands m)

  is_some-owner :
      (m : HashMap (AggregateHandle S)) (c : String)
      → is_some (owner m c) ≡ contains (all_commands m) c
  unfolding contains
  is_some-owner [] c = refl
  is_some-owner ((a, h) ∷ m) c =
      ground (arith, is_some-owner m c, contains-append h.command_names (all_commands m) c)

  -- A key of the rest of a map with distinct keys is not its first key.
  get-cons :
      (m : HashMap (AggregateHandle S)) (b a : String) (h g : AggregateHandle S)
      → HashMap.contains_key m b ≡ false
      → HashMap.get m a ≡ some g
      → HashMap.get ((b, h) ∷ m) a ≡ some g
  unfolding HashMap.get
  get-cons m b a h g new e = ground (arith, eq_iff b a, contains_key-eq m b)

  get-here :
      (m : HashMap (AggregateHandle S)) (a : String) (h : AggregateHandle S)
      → HashMap.get ((a, h) ∷ m) a ≡ some h
  unfolding HashMap.get
  get-here m a h = rw (eq_refl a)

  -- An owner is the key of an aggregate that handles the command.
  owner-handles :
      (m : HashMap (AggregateHandle S)) (c a : String)
      → Distinct m
      → owner m c ≡ some a
      → (h : AggregateHandle S) × (HashMap.get m a ≡ some h) × (contains h.command_names c ≡ true)
  owner-handles [] c a d e = absurd (cc)
  owner-handles ((b, h) ∷ m) c a d e = elim (Option-cases (owner m c)) [
    | inl e' ↦ elim (Bool-cases (contains h.command_names c)) [
      | inl yes' ↦ (
        h,
        subst (λ k. HashMap.get ((b, h) ∷ m) k ≡ some h) (ground arith) (get-here m b h),
        yes',
      )
      | inr no' ↦ absurd (ground arith)
    ]
    | inr (a', e') ↦
        let (g, found, handles) = owner-handles m c a d.1 (ground arith) in
        (g, get-cons m b a h g d.0 found, handles)
  ]

pub commands-registered :
    {S : Type 0} (self : TheAggregateRegistry S)
    → (registered self).commands ≡ all_commands self.handlers
unfolding registered register
commands-registered self = commands-register_aggregates self.handlers _

module _ {S : Type 0} (self : TheAggregateRegistry S) (command_name : String) where
  pub mapping-registered :
      HashMap.get (registered self).command_to_aggregate_mapping command_name
      ≡ owner self.handlers command_name
  unfolding registered register HashMap.get
  mapping-registered = mapping-register_aggregates self.handlers _ command_name ∙ ground (arith)

  contains-registered :
      is_some (owner self.handlers command_name) ≡ contains (registered self).commands command_name
  contains-registered =
      is_some-owner self.handlers command_name
      ∙ ap (λ l. contains l command_name) (sym (commands-registered self))

  -- For a command that the worker subscribes to it finds an aggregate, which is one that handles
  -- commands of that name.
  pub find_aggregate-subscribed :
      Distinct self.handlers
      → contains (registered self).commands command_name ≡ true
      → (h : AggregateHandle S) × (find_aggregate self
            (registered self).command_to_aggregate_mapping
            command_name
          ≡ some h)
        × (contains h.command_names command_name ≡ true)
  unfolding find_aggregate get
  find_aggregate-subscribed d e = elim (Option-cases (owner self.handlers command_name)) [
    | inl missing ↦ absurd (cc (contains-registered, missing, e))
    | inr (a, found) ↦
        let (h, here, handles) = owner-handles self.handlers command_name a d found in
        (h, rw (mapping-registered, found, find_aggregate) here, handles)
  ]

  -- For any other command it finds none.
  pub find_aggregate-other :
      contains (registered self).commands command_name ≡ false
      → find_aggregate self (registered self).command_to_aggregate_mapping command_name ≡ none
  unfolding find_aggregate
  find_aggregate-other e = ground (arith, mapping-registered, contains-registered)

  -- Over a registry whose keys are distinct the worker subscribes to a command and finds an aggregate
  -- for it, which is one that handles commands of that name, or it does neither.
  pub find_aggregate-cases :
      Distinct self.handlers
      → ((contains (registered self).commands command_name ≡ true)
          × ((h : AggregateHandle S) × (find_aggregate self
                  (registered self).command_to_aggregate_mapping
                  command_name
                ≡ some h)
              × (contains h.command_names command_name ≡ true)))
        ⊎ ((contains (registered self).commands command_name ≡ false)
            × (find_aggregate self (registered self).command_to_aggregate_mapping command_name
                ≡ none))
  find_aggregate-cases d = elim (Bool-cases (contains (registered self).commands command_name)) [
    | inl e ↦ inl (e, find_aggregate-subscribed d e)
    | inr e ↦ inr (e, find_aggregate-other e)
  ]
