-- ===== src/Config/Json.antt =====
-- JSON values, the input of config/schema.ts.
use sepigs.Base.{ℕ, String, Bool, List, [], ◌∷◌, nat_eq, string_eq}
use sepigs.Base.Table.{Table}
use sepigs.Base.Text.{Text, text_key}

-- A number: an integer from 0, the integer -(n + 1), or one that is no integer.
pub data Numeral : Type 0 where
  natural : ℕ → Numeral
  negative : ℕ → Numeral
  fractional : Numeral

mutual
  pub data Json : Type 0 where
    null : Json
    boolean : Bool → Json
    numeral : Numeral → Json
    text : Text → Json
    array : Items → Json
    object : Members → Json

  pub data Items : Type 0 where
    end : Items
    item : Json → Items → Items

  pub data Members : Type 0 where
    end_members : Members
    member : String → Json → Members → Members

-- `Record<string, unknown>`: the members in their order.
abbrev pub Object : Type 0
Object = Table String Json

abbrev pub elements : Items → List Json
elements end = []
elements (item j js) = j ∷ elements js

abbrev pub entries : Members → Object
entries end_members = []
entries (member k j ms) = (k, j) ∷ entries ms
