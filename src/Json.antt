-- ===== src/Json.antt =====
-- The values that `JSON.parse` gives, and the shape tests of the web application.
use flash_trips.Prelude.{ℕ, String, Bool, Option, none, some, str_eq, if◌then◌else◌}

mutual
  pub data Json : Type 0 where
    null : Json
    bool : Bool → Json
    num : ℕ → Json
    str : String → Json
    arr : Items → Json
    obj : Fields → Json

  pub data Items : Type 0 where
    nil : Items
    cons : Json → Items → Items

  pub data Fields : Type 0 where
    end : Fields
    field : String → Json → Fields → Fields

-- `name in value` and `value[name]` on the properties of an object.
unfoldable pub property : String → Fields → Option Json
property name end = none
property name (field key value rest) = if str_eq key name then some value else property name rest

-- A property of a value of unknown type: null, scalars and arrays have none of those asked for.
unfoldable pub member : String → Json → Option Json
unfolding property
member name (obj fields) = property name fields
member name _ = none

abbrev pub as_string : Option Json → Option String
as_string (some (str s)) = some s
as_string _ = none

abbrev pub as_number : Option Json → Option ℕ
as_number (some (num n)) = some n
as_number _ = none

-- `name in value && typeof value[name] === "string"`, with the string.
unfoldable pub string_member : String → Json → Option String
unfolding member
string_member name value = as_string (member name value)

-- `name in value && typeof value[name] === "number"`, with the number.
unfoldable pub number_member : String → Json → Option ℕ
unfolding member
number_member name value = as_number (member name value)
