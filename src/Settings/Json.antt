-- ===== src/Settings/Json.antt =====
-- serde_json::Value as far as the settings read it: of a number only `as_u64` counts, and an object
-- is looked up by key.
use chiu.Common.{ℕ, String, Bool, true, false, Option, none, some, if◌then◌else◌}
use text.Mathlib.Text.{◌==◌}

mutual
  pub data Value : Type 0 where
    null : Value
    bool : Bool → Value
    number : (as_u64 : Option ℕ) → Value
    string : String → Value
    array : Values → Value
    object : Map → Value

  pub data Values : Type 0 where
    nil : Values
    cons : Value → Values → Values

  pub data Map : Type 0 where
    end : Map
    entry : String → Value → Map → Map

abbrev pub get : String → Map → Option Value
get k end = none
get k (entry j v rest) = if j == k then some v else get k rest

abbrev pub as_u64 : Value → Option ℕ
as_u64 (number n) = n
as_u64 _ = none

abbrev pub is_number : Value → Bool
is_number (number _) = true
is_number _ = false

abbrev pub as_object : Value → Option Map
as_object (object fields) = some fields
as_object _ = none

-- `Value::get`: none of what is no object.
abbrev pub get_of : String → Value → Option Value
get_of k (object fields) = get k fields
get_of k _ = none
