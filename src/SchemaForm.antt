-- ===== src/SchemaForm.antt =====
-- studio/src/features/resources/schema-form.tsx and secret-fields.ts: a form made from a JSON schema.
-- Object keys keep the order in which they came; a key in the form of an array index, which JavaScript
-- would put first, is not treated apart.
pub mod Resolve
pub mod Change
pub mod Inputs
pub mod Paths
pub mod Root
pub mod Lists
pub mod Tests
use restitch_gateway.Prelude.{
  ℕ, zero, suc, ◌+◌, Bool, true, false, not, ◌&&◌, ◌||◌, Option, none, some, List, [], ◌∷◌, ◌++◌,
  map, Str, codes, ◌===◌, ◌==◌, if◌then◌else◌, filter, includes, length, drop,
}
use mathlib.Core.Option
use restitch_gateway.Text.{trim, split, starts_with}
use restitch_gateway.Values.{
  Value, undefined, null, bool, num, str, arr, obj, Items, nil, cons, Fields, end, field, get_field,
  set_field, delete_field, keys, items_of,
}

-- The part of JSON Schema that the form reads. An empty `ref` counts as none.
mutual
  pub data Schema : Type 0 where
    flag : Bool → Schema
    ref : Str → Schema
    shape : Shape → Schema

  pub data Shape : Type 0 where
    fields : Option Str → Properties → Schemas → Schemas → Option Str → Option Str → Shape

  -- The entries of `properties`, or that it is missing.
  pub data Properties : Type 0 where
    missing : Properties
    listed : Entries → Properties

  pub data Entries : Type 0 where
    last : Entries
    entry : Str → Schema → Entries → Entries

  -- One schema, or none.
  pub data Schemas : Type 0 where
    absent : Schemas
    one : Schema → Schemas

abbrev pub Defs : Type 0
Defs = List (Str × Schema)

-- What `resolve` returns: `true`, or a shape.
pub data Resolved : Type 0 where
  anything : Resolved
  shaped : Shape → Resolved

abbrev defs_prefix : Str
defs_prefix = codes "#/$defs/"

-- `ref.replace("#/$defs/", "")`.
unfoldable pub ref_name : Str → Str
ref_name [] = []
ref_name (c ∷ s) =
    let rest = ref_name s in
    if starts_with (c ∷ s) defs_prefix then drop (length defs_prefix) (c ∷ s) else c ∷ rest

unfoldable pub lookup : Defs → Str → Option Schema
lookup [] name = none
lookup ((k, s) ∷ defs) name = if k === name then some s else lookup defs name

-- `none` says that the fuel is used up.
unfoldable pub resolve : ℕ → Defs → Schema → Option Resolved
resolve fuel defs (flag b) = some anything
resolve zero defs (ref s) = none
resolve (suc fuel) defs (ref s) = elim (lookup defs (ref_name s)) [
  | none ↦ some anything
  | some target ↦ resolve fuel defs target
]
resolve fuel defs (shape s) = some (shaped s)

-- `setKey`: an empty value removes the key.
unfoldable pub is_empty_value : Value → Bool
is_empty_value undefined = true
is_empty_value (str []) = true
is_empty_value (bool false) = true
is_empty_value (arr nil) = true
is_empty_value _ = false

unfoldable pub set_key : Fields → Str → Value → Fields
set_key o k v = if is_empty_value v then delete_field o k else set_field o k v

unfoldable pub has_type : Str → Shape → Bool
has_type name (fields none ps add items pattern description) = false
has_type name (fields (some t) ps add items pattern description) = t === name

unfoldable pub properties : Shape → Properties
properties (fields t ps add items pattern description) = ps

-- `false` for additionalProperties counts as missing.
unfoldable pub has_additional : Shape → Bool
has_additional (fields t ps absent items pattern description) = false
has_additional (fields t ps (one (flag b)) items pattern description) = b
has_additional (fields t ps (one (ref s)) items pattern description) = true
has_additional (fields t ps (one (shape s)) items pattern description) = true

unfoldable pub items_schema : Shape → Schema
items_schema (fields t ps add absent pattern description) = flag true
items_schema (fields t ps add (one s) pattern description) = s

-- Which field SchemaField shows.
pub data Control : Type 0 where
  free : Bool → Control
  section : Bool → Entries → Control
  string_map : Control
  object_list : Resolved → Control
  comma_list : Bool → Control
  checkbox : Control
  number_box : Control
  text_box : Control

unfoldable pub is_present : Value → Bool
is_present undefined = false
is_present null = false
is_present _ = true

abbrev list_control : Resolved → Control
list_control anything = comma_list false
list_control (shaped s) =
    if has_type (codes "object") s
    then object_list (shaped s)
    else comma_list (has_type (codes "integer") s)

abbrev simple_control : Shape → Control
simple_control s =
    if has_type (codes "boolean") s
    then checkbox
    else if has_type (codes "integer") s || has_type (codes "number") s
    then number_box
    else text_box

abbrev object_control : Shape → Properties → Value → Control
object_control s missing value = if has_additional s then string_map else free true
object_control s (listed ps) value = section (is_present value) ps

unfoldable pub shape_control : Shape → Option Resolved → Value → Option Control
shape_control s items value =
    if has_type (codes "object") s
    then some (object_control s (properties s) value)
    else if has_type (codes "array") s
    then Option.map list_control items
    else some (simple_control s)

abbrev resolved_control : ℕ → Defs → Option Resolved → Value → Option Control
resolved_control fuel defs none value = none
resolved_control fuel defs (some anything) value = some (free false)
resolved_control fuel defs (some (shaped s)) value =
    shape_control s (resolve fuel defs (items_schema s)) value

-- The field of a schema and a value.
unfoldable pub control : ℕ → Defs → Schema → Value → Option Control
control fuel defs schema value = resolved_control fuel defs (resolve fuel defs schema) value
