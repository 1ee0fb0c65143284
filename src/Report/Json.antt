-- ===== src/Report/Json.antt =====
-- Payload values: what `unknown` and `Record<string, unknown>` hold after JSON was parsed.
use wdc_backend.Prelude.{Bool, true, false, String, List, [], ◌∷◌, str_eq, if◌then◌else◌}

-- Numbers are kept as their text, arrays and objects as their JSON text and the property name
-- that JavaScript makes of them; `undefined` is the value of a missing property.
pub data Json : Type 0 where
  undefined null : Json
  bool : Bool → Json
  num str : String → Json
  structured : String → String → Json

-- An object, by its properties.
abbrev pub Object : Type 0
Object = List (String × Json)

-- `o.key`
unfoldable pub get_property : String → Object → Json
get_property key [] = undefined
get_property key ((k, v) ∷ o) = if str_eq k key then v else get_property key o

-- The property name that a value becomes between the brackets of `o[value]`.
unfoldable pub property_key : Json → String
property_key undefined = "undefined"
property_key null = "null"
property_key (bool true) = "true"
property_key (bool false) = "false"
property_key (num text) = text
property_key (str s) = s
property_key (structured text key) = key

-- `===` between two parsed values, where arrays and objects are never the same object.
unfoldable pub same_value : Json → Json → Bool
same_value undefined undefined = true
same_value null null = true
same_value (bool true) (bool b) = b
same_value (bool false) (bool true) = false
same_value (bool false) (bool false) = true
same_value (num a) (num b) = str_eq a b
same_value (str a) (str b) = str_eq a b
same_value _ _ = false
