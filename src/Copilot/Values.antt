-- ===== src/Copilot/Values.antt =====
-- The JSON values that tool calls carry, and the calls themselves: a proposed call as the planner or
-- the operator sends it (`RawCall`, each key may be missing) and a call that the guards accepted.
-- The code looks into texts, arrays and objects only; a number is kept as its literal.
use insta.Prelude.{String, Bool, List, [], ◌∷◌, Option}

mutual
  pub data Value : Type 0 where
    null : Value
    boolean : Bool → Value
    number : String → Value
    text : String → Value
    array : Items → Value
    object : Fields → Value

  pub data Items : Type 0 where
    nil : Items
    item : Value → Items → Items

  pub data Fields : Type 0 where
    end : Fields
    member : String → Value → Fields → Fields

pub record RawCall : Type 0 where
  pub id : Option String
  pub name : Option String
  pub arguments : Option Value

pub record ToolCall : Type 0 where
  pub id : Option String
  pub name : String
  pub arguments : Value

abbrev pub field_names : Fields → List String
field_names end = []
field_names (member k v fs) = k ∷ field_names fs
