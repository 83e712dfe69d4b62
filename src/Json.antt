-- ===== src/Json.antt =====
-- The values that `json.loads` makes of a request body or a configuration file. A number is kept
-- as its text: the modelled code never computes with one.
use production_rag.Base.{
  List, [], ◌∷◌, Option, none, some, Text, ◌==◌, nat_eq, list_eq, Bool, if◌then◌else◌,
}

mutual
  pub data Json : Type 0 where
    null : Json
    boolean : Bool → Json
    number : Text → Json
    string : Text → Json
    array : Items → Json
    object : Fields → Json

  pub data Items : Type 0 where
    end : Items
    item : Json → Items → Items

  pub data Fields : Type 0 where
    none_left : Fields
    field : Text → Json → Fields → Fields

unfoldable pub elements : Items → List Json
elements end = []
elements (item j r) = j ∷ elements r

-- `d.get(name)` of an object whose names are distinct; `none` is a missing name.
unfoldable pub get_field : Text → Fields → Option Json
get_field name none_left = none
get_field name (field n j r) = if n == name then some j else get_field name r
