-- ===== src/CommandWorker/Registry/Order.antt =====
-- The order in which the iteration over the registered aggregates meets them, which a `HashMap` leaves
-- open, in `register` of src/axon_utils/command_worker.rs.
use mathlib.Core.List.{Perm, Permᴰ}
use mathlib.Core.List.Permᴰ
use rusty_dendrite.Prelude.{
  String, ◌≡◌, refl, sym, subst, ap, ap₂, ◌∙◌, true, false, Option, none, some, List, [], ◌∷◌, ◌++◌,
  append_assoc, arith, ◌==◌, if◌then◌else◌, or_else, contains, contains-append,
}
use rusty_dendrite.HashMap
use rusty_dendrite.HashMap.{HashMap, Distinct}
use rusty_dendrite.HashMap.Order.{get-Permᴰ}
use rusty_dendrite.CommandWorker.Aggregate.{AggregateHandle}
use rusty_dendrite.CommandWorker.Registry.{TheAggregateRegistry, registered, get, find_aggregate}
use rusty_dendrite.CommandWorker.Registry.Owners.{
  owner, all_commands, mapping-registered, commands-registered,
}

contains-Permᴰ : {xs ys : List String} (c : String) → Permᴰ xs ys → contains xs c ≡ contains ys c
unfolding contains
contains-Permᴰ c Permᴰ.nil = refl
contains-Permᴰ c (Permᴰ.cons {b = b} e p) =
    rw e (ap (λ r. if b == c then true else r) (contains-Permᴰ c p))
contains-Permᴰ c (Permᴰ.swap e f) = rw (e, f) (ground arith)
contains-Permᴰ c (Permᴰ.trans p q) = contains-Permᴰ c p ∙ contains-Permᴰ c q

module _ {S : Type 0} where
  -- No command is handled by two aggregates.
  abbrev pub Exclusive : HashMap (AggregateHandle S) → Type 0
  Exclusive [] = Unit
  Exclusive ((a, h) ∷ rest) =
      ((c : String) → contains h.command_names c ≡ true → contains (all_commands rest) c ≡ false)
      × Exclusive rest

  all_commands-swap :
      (x y : String × AggregateHandle S) (m : HashMap (AggregateHandle S))
      → Permᴰ (all_commands (x ∷ y ∷ m)) (all_commands (y ∷ x ∷ m))
  all_commands-swap (a, h) (b, g) m =
      subst (λ l. Permᴰ l (g.command_names ++ (h.command_names ++ all_commands m)))
        (append_assoc h.command_names g.command_names (all_commands m))
        (subst (λ l. Permᴰ ((h.command_names ++ g.command_names) ++ all_commands m) l)
          (append_assoc g.command_names h.command_names (all_commands m))
          (Permᴰ.append_right (all_commands m) (Permᴰ.append_comm h.command_names g.command_names)))

  all_commands-Permᴰ :
      {m n : HashMap (AggregateHandle S)} → Permᴰ m n → Permᴰ (all_commands m) (all_commands n)
  all_commands-Permᴰ Permᴰ.nil = Permᴰ.nil
  all_commands-Permᴰ (Permᴰ.cons {a = a} {l₁ = l} {l₂ = k} e p) =
      subst
        (λ (x : String × AggregateHandle S). Permᴰ (all_commands (a ∷ l)) (all_commands (x ∷ k))) e
        (Permᴰ.append_left a.1.command_names (all_commands-Permᴰ p))
  all_commands-Permᴰ (Permᴰ.swap {a} {b} {a'} {b'} {l} e f) =
      subst
        (λ (x : String × AggregateHandle S).
          Permᴰ (all_commands (a ∷ b ∷ l)) (all_commands (x ∷ b' ∷ l)))
        f
        (subst
          (λ (x : String × AggregateHandle S).
            Permᴰ (all_commands (a ∷ b ∷ l)) (all_commands (b ∷ x ∷ l)))
          e (all_commands-swap a b l))
  all_commands-Permᴰ (Permᴰ.trans p q) = Permᴰ.trans (all_commands-Permᴰ p) (all_commands-Permᴰ q)

  Exclusive-swap :
      (x y : String × AggregateHandle S) (m : HashMap (AggregateHandle S))
      → Exclusive (x ∷ y ∷ m)
      → Exclusive (y ∷ x ∷ m)
  Exclusive-swap (a, h) (b, g) m (apart, (apart', d)) = (
    (λ c i. ground (
      arith,
      apart c,
      apart' c i,
      contains-append g.command_names (all_commands m) c,
      contains-append h.command_names (all_commands m) c,
    )),
    ((λ c i. ground (arith, apart c i, contains-append g.command_names (all_commands m) c)), d),
  )

  Exclusive-Permᴰ : {m n : HashMap (AggregateHandle S)} → Permᴰ m n → Exclusive m → Exclusive n
  Exclusive-Permᴰ Permᴰ.nil d = d
  Exclusive-Permᴰ (Permᴰ.cons {b = b} {l₂ = k} e p) (apart, d) = (
    (λ c i.
        sym (contains-Permᴰ c (all_commands-Permᴰ p))
        ∙ apart c (ap (λ x. contains x.1.command_names c) e ∙ i)),
    Exclusive-Permᴰ p d,
  )
  Exclusive-Permᴰ (Permᴰ.swap {a} {b} {a'} {b'} {l} e f) d =
      subst (λ (x : String × AggregateHandle S). Exclusive (x ∷ b' ∷ l)) f
        (subst (λ (x : String × AggregateHandle S). Exclusive (b ∷ x ∷ l)) e
          (Exclusive-swap a b l d))
  Exclusive-Permᴰ (Permᴰ.trans p q) d = Exclusive-Permᴰ q (Exclusive-Permᴰ p d)

  owner-swap :
      (x y : String × AggregateHandle S) (m : HashMap (AggregateHandle S)) (c : String)
      → Exclusive (x ∷ y ∷ m)
      → owner (x ∷ y ∷ m) c ≡ owner (y ∷ x ∷ m) c
  owner-swap (a, h) (b, g) m c (apart, d) =
      ground (arith, apart c, contains-append g.command_names (all_commands m) c)

  owner-Permᴰ :
      {m n : HashMap (AggregateHandle S)} (c : String)
      → Permᴰ m n
      → Exclusive m
      → owner m c ≡ owner n c
  owner-Permᴰ c Permᴰ.nil d = refl
  owner-Permᴰ c (Permᴰ.cons {b = b} e p) d = rw e (
      ap (λ o. or_else o (if contains b.1.command_names c then some b.0 else none))
        (owner-Permᴰ c p d.1))
  owner-Permᴰ c (Permᴰ.swap {a} {b} {a'} {b'} {l} e f) d =
      owner-swap a b l c d ∙ ap₂ (λ x y. owner (x ∷ y ∷ l) c) f e
  owner-Permᴰ c (Permᴰ.trans p q) d = owner-Permᴰ c p d ∙ owner-Permᴰ c q (Exclusive-Permᴰ p d)

  -- The aggregate under the name of an owner.
  abbrev named : HashMap (AggregateHandle S) → Option String → Option (AggregateHandle S)
  named m none = none
  named m (some a) = HashMap.get m a

  find_aggregate-named :
      (self : TheAggregateRegistry S) (mapping : HashMap String) (c : String) (o : Option String)
      → HashMap.get mapping c ≡ o
      → find_aggregate self mapping c ≡ named self.handlers o
  unfolding find_aggregate get
  find_aggregate-named self mapping c none e = rw (e, find_aggregate) refl
  find_aggregate-named self mapping c (some a) e = rw (e, find_aggregate) refl

  find_aggregate-owner :
      (self : TheAggregateRegistry S) (c : String)
      → find_aggregate self (registered self).command_to_aggregate_mapping c
        ≡ named self.handlers (owner self.handlers c)
  find_aggregate-owner self c = find_aggregate-named self _ c _ (mapping-registered self c)

  named-Permᴰ :
      {m n : HashMap (AggregateHandle S)} (o : Option String)
      → Permᴰ m n
      → Distinct m
      → named m o ≡ named n o
  named-Permᴰ none p d = refl
  named-Permᴰ (some a) p d = get-Permᴰ a p d

  -- Let two registries have the same entries, in whatever orders an iteration meets them, with
  -- distinct keys, and let no two of the aggregates handle the same command. Then the worker over
  -- the one subscribes to the same commands as over the other, up to their order, and it finds the
  -- same aggregate for every command.
  pub registered-any_order :
      (self other : TheAggregateRegistry S)
      → Permᴰ self.handlers other.handlers
      → Distinct self.handlers
      → Exclusive self.handlers
      → Perm (registered self).commands (registered other).commands
        × ((c : String)
            → find_aggregate self (registered self).command_to_aggregate_mapping c
              ≡ find_aggregate other (registered other).command_to_aggregate_mapping c)
  registered-any_order self other p d apart = (
    rw (commands-registered self, commands-registered other) (∣ all_commands-Permᴰ p ∣₁),
    λ c.
        find_aggregate-owner self c
        ∙ ap (named self.handlers) (owner-Permᴰ c p apart)
        ∙ named-Permᴰ (owner other.handlers c) p d
        ∙ sym (find_aggregate-owner other c),
  )
