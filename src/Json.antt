-- ===== src/Json.antt =====
-- The JSON values that the program reads and prints. An absent field is `undefined`.
use dash_ota.Base.{Bool, Option, none, some, Text, ◌===◌, if◌then◌else◌, is_empty}
use dash_ota.Base.Number.{Number}

mutual
  pub data Json : Type 0 where
    null : Json
    bool : Bool → Json
    num : Number → Json
    str : Text → Json
    arr : Items → Json
    obj : Fields → Json

  pub data Items : Type 0 where
    nil : Items
    cons : Json → Items → Items

  pub data Fields : Type 0 where
    end : Fields
    field : (key : Text) → Json → Fields → Fields

-- `o[name]`
unfoldable pub get_field : Fields → Text → Option Json
get_field end name = none
get_field (field k v fs) name = if k === name then some v else get_field fs name

-- The text that a field holds, if it holds one.
abbrev pub as_text : Option Json → Option Text
as_text (some (str s)) = some s
as_text _ = none

-- `isText` of packages/backend/src/routes.ts: a text that is not empty.
abbrev pub text_of : Option Json → Option Text
text_of (some (str s)) = if is_empty s then none else some s
text_of _ = none

abbrev pub as_number : Option Json → Option Number
as_number (some (num n)) = some n
as_number _ = none

abbrev pub as_bool : Option Json → Option Bool
as_bool (some (bool b)) = some b
as_bool _ = none
