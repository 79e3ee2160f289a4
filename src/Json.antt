-- ===== src/Json.antt =====
-- The values that a JSONB column or a hashed payload holds.
use doda.Base.{ℕ, String, Bool, true, false, not, Option, none, some, ◌==◌, str_eq, if◌then◌else◌}

mutual
  pub data Json : Type 0 where
    null : Json
    bool : Bool → Json
    num : ℕ → Json
    text : String → Json
    array : Items → Json
    object : Fields → Json

  pub data Items : Type 0 where
    nil : Items
    item : Json → Items → Items

  pub data Fields : Type 0 where
    end : Fields
    field : String → Json → Fields → Fields

-- `value.get(name)` and `value[name]` on an object.
abbrev pub get : Fields → String → Option Json
get end name = none
get (field key value rest) name = if str_eq key name then some value else get rest name

-- `isinstance(value, str)`
abbrev pub as_text : Option Json → Option String
as_text (some (text t)) = some t
as_text _ = none

-- `bool(value)`
abbrev pub truthy : Json → Bool
truthy null = false
truthy (bool b) = b
truthy (num n) = not (n == 0)
truthy (text t) = not (str_eq t "")
truthy (array nil) = false
truthy (array (item j js)) = true
truthy (object end) = false
truthy (object (field k v r)) = true
