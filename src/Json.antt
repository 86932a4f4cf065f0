-- ===== src/Json.antt =====
-- `serde_json::Value`, as far as the program reads it.
use rusty_dendrite.Prelude.{String, Bool, Option, ◌==◌, if◌then◌else◌}
use rusty_dendrite.Prelude.Int.{ℤ}

mutual
  -- A number that is no i64 is `number none`.
  pub data Value : Type 0 where
    null : Value
    boolean : Bool → Value
    number : Option ℤ → Value
    text : String → Value
    array : Values → Value
    object : Members → Value

  pub data Values : Type 0 where
    no_values : Values
    value_and : Value → Values → Values

  pub data Members : Type 0 where
    no_members : Members
    member_and : String → Value → Members → Members

member : Members → String → Value
member no_members key = null
member (member_and name value rest) key = if name == key then value else member rest key

-- `value[key]`, which is `Null` where there is no such member.
unfoldable pub field : Value → String → Value
unfolding member
field null key = null
field (boolean b) key = null
field (number n) key = null
field (text t) key = null
field (array vs) key = null
field (object fields) key = member fields key
