-- ===== src/Json.antt =====
-- `serde_json::Value` as the daemon inspects it. A number is kept as the text that its `Display`
-- prints, with the `u64` that `as_u64` reads from it, if any. An object is a list of fields.
use lacs.Prelude.{ℕ, String, Bool, Option, none, some, str_eq, if◌then◌else◌}

mutual
  pub data Value : Type 0 where
    null : Value
    bool : Bool → Value
    number : String → Option ℕ → Value
    string : String → Value
    array : Items → Value
    object : Fields → Value

  pub data Items : Type 0 where
    nil : Items
    cons : Value → Items → Items

  pub data Fields : Type 0 where
    end : Fields
    field : String → Value → Fields → Fields

-- `Map::get`
unfoldable pub field? : Fields → String → Option Value
field? end k = none
field? (field j v fs) k = if str_eq j k then some v else field? fs k

-- `Value::get` with a key
unfoldable pub get : Value → String → Option Value
unfolding field?
get (object fs) k = field? fs k
get _ k = none

-- `Value::as_str`
abbrev pub as_str : Value → Option String
as_str (string s) = some s
as_str _ = none

-- `Value::as_u64`
abbrev pub as_u64 : Value → Option ℕ
as_u64 (number _ n) = n
as_u64 _ = none
