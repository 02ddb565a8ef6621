-- ===== src/SchemaForm/Change.antt =====
-- studio/src/features/resources/schema-form.tsx: what the fields hand to onChange, from the field that
-- is edited up to the whole object.
use restitch_gateway.Prelude.{
  ℕ, zero, suc, Bool, true, false, not, ◌||◌, Option, none, some, List, [], ◌∷◌, ◌++◌, map, Str,
  codes, ◌===◌, if◌then◌else◌, filter, includes,
}
use restitch_gateway.Text.{trim, split}
use restitch_gateway.Values.{
  Value, undefined, bool, num, str, arr, obj, Items, nil, cons, Fields, end, field, get_field,
  set_field, delete_field, keys, items_of,
}
use restitch_gateway.SchemaForm.{
  Schema, missing, listed, Entries, last, entry, Defs, Resolved, anything, shaped, Control, free,
  section, string_map, object_list, comma_list, checkbox, number_box, text_box, control, set_key,
  properties,
}

-- One action of the user on a field, or on a field inside it.
pub data Edit : Type 0 where
  toggle_section : Edit
  in_key : Str → Edit → Edit
  add_item : Edit
  remove_item : ℕ → Edit
  in_item : ℕ → Str → Edit → Edit
  check : Bool → Edit
  enter : Str → Edit
  -- A free field hands on what its text parses to.
  give : Value → Edit
  set_entry : Str → Str → Edit
  remove_entry : Str → Edit
  add_entry : Str → Edit

unfoldable pub find_entry : Entries → Str → Option Schema
find_entry last k = none
find_entry (entry j s es) k = if j === k then some s else find_entry es k

-- `value as Obj`. A text or a list, which JavaScript would take apart, is left out.
unfoldable pub fields_of : Value → Option Fields
fields_of (obj o) = some o
fields_of (str s) = none
fields_of (arr vs) = none
fields_of _ = some end

unfoldable pub list_of : Value → Items
list_of (arr vs) = vs
list_of _ = nil

unfoldable pub get_item : Items → ℕ → Option Value
get_item nil i = none
get_item (cons v vs) zero = some v
get_item (cons v vs) (suc i) = get_item vs i

-- `list.filter((_, j) => j !== i)`.
unfoldable pub remove_at : Items → ℕ → Items
remove_at nil i = nil
remove_at (cons v vs) zero = vs
remove_at (cons v vs) (suc i) = cons v (remove_at vs i)

-- `list.map((x, j) => (j === i ? v : x))`.
unfoldable pub replace_at : Items → ℕ → Value → Items
replace_at nil i w = nil
replace_at (cons v vs) zero w = cons w vs
replace_at (cons v vs) (suc i) w = cons v (replace_at vs i w)

unfoldable pub append_item : Items → Value → Items
append_item nil w = cons w nil
append_item (cons v vs) w = cons v (append_item vs w)

abbrev pub is_blank : Str → Bool
is_blank s = s === []

-- `text.split(",").map((p) => p.trim()).filter(Boolean)`.
unfoldable pub parts : Str → List Str
parts text = filter (λ p. not (is_blank p)) (map trim (split b',' text))

-- `list.join(", ")`.
unfoldable pub joined : List Str → Str
joined [] = []
joined (x ∷ []) = x
joined (x ∷ y ∷ xs) = x ++ codes ", " ++ joined (y ∷ xs)

unfoldable pub numbers_of : List Str → Items
numbers_of [] = nil
numbers_of (n ∷ ns) = if n === codes "NaN" then numbers_of ns else cons (num n) (numbers_of ns)

-- `Number` of a text, as the text of the number.
module _ (number : Str → Str) where
  unfoldable pub entered : Control → Str → Option Value
  entered (comma_list true) text = some (arr (numbers_of (map number (parts text))))
  entered (comma_list false) text = some (arr (items_of (parts text)))
  entered number_box text = some (if is_blank text then undefined else num (number text))
  entered text_box text = some (str text)
  entered _ text = none

-- The members that every object inherits, which `in` finds too.
abbrev pub inherited : List Str
inherited =
    codes "constructor"
    ∷ codes "__defineGetter__"
    ∷ codes "__defineSetter__"
    ∷ codes "hasOwnProperty"
    ∷ codes "__lookupGetter__"
    ∷ codes "__lookupSetter__"
    ∷ codes "isPrototypeOf"
    ∷ codes "propertyIsEnumerable"
    ∷ codes "toString"
    ∷ codes "valueOf"
    ∷ codes "__proto__"
    ∷ codes "toLocaleString"
    ∷ []

unfoldable pub is_in : Str → Fields → Bool
is_in k o = includes (keys o) k || includes inherited k

abbrev fields_or_undefined : Fields → Value
fields_or_undefined end = undefined
fields_or_undefined (field k v o) = obj (field k v o)

-- The handlers of MapField; the button Add is disabled for a blank or a known name.
unfoldable pub change_map : Fields → Edit → Option Value
change_map o (set_entry k text) = some (obj (set_field o k (str text)))
change_map o (remove_entry k) = some (fields_or_undefined (delete_field o k))
change_map o (add_entry draft) =
    if is_blank (trim draft) || is_in (trim draft) o
    then none
    else some (obj (set_field o (trim draft) (str [])))
change_map o _ = none

abbrev pub put_key : Option Fields → Str → Option Value → Option Value
put_key none k v = none
put_key (some o) k none = none
put_key (some o) k (some v) = some (obj (set_key o k v))

abbrev pub get_of : Option Fields → Str → Value
get_of none k = undefined
get_of (some o) k = get_field o k

-- The entries that ObjectFields shows for a schema.
unfoldable pub object_entries : Option Resolved → Entries
object_entries none = last
object_entries (some anything) = last
object_entries (some (shaped s)) = elim (properties s) [ missing ↦ last | listed es ↦ es ]

-- `(item as Obj) ?? {}` of the item at an index, if there is one.
abbrev pub item_fields : Option Value → Option Fields
item_fields none = none
item_fields (some v) = fields_of v

abbrev pub put_item : Items → ℕ → Option Value → Option Value
put_item vs i none = none
put_item vs i (some v) = some (arr (replace_at vs i v))

-- The fields that an open section shows, and those of each item of an object list.
unfoldable pub open_entries : Option Control → Entries
open_entries (some (section true es)) = es
open_entries _ = last

unfoldable pub list_entries : Option Control → Entries
list_entries (some (object_list items)) = object_entries (some items)
list_entries _ = last

unfoldable pub remove_item_at : Items → ℕ → Option Value → Option Value
remove_item_at vs i none = none
remove_item_at vs i (some v) = some (arr (remove_at vs i))

abbrev map_edit : Option Fields → Edit → Option Value
map_edit none e = none
map_edit (some o) e = change_map o e

-- The next value that SchemaField gives after an edit; `none` if the field has no such action.
module _ (number : Str → Str) where
  unfoldable pub change_here : Option Control → Edit → Value → Option Value
  change_here (some (section present es)) toggle_section value =
      some (if present then undefined else obj end)
  change_here (some (object_list items)) add_item value =
      some (arr (append_item (list_of value) (obj end)))
  change_here (some (object_list items)) (remove_item i) value =
      remove_item_at (list_of value) i (get_item (list_of value) i)
  change_here (some string_map) e value = map_edit (fields_of value) e
  change_here (some checkbox) (check b) value = some (bool b)
  change_here (some (free json)) (give v) value = some v
  change_here (some c) (enter text) value = entered number c text
  change_here _ e value = none

module _ (number : Str → Str) (fuel : ℕ) (defs : Defs) where
  unfoldable pub change : Edit → Schema → Value → Option Value
  change (in_key k e) schema value =
      elim (find_entry (open_entries (control fuel defs schema value)) k) [
        | none ↦ none
        | some s ↦ put_key (fields_of value) k (change e s (get_of (fields_of value) k))
      ]
  change (in_item i k e) schema value =
      let o = item_fields (get_item (list_of value) i) in
      elim (find_entry (list_entries (control fuel defs schema value)) k) [
        | none ↦ none
        | some s ↦ put_item (list_of value) i (put_key o k (change e s (get_of o k)))
      ]
  change e schema value = change_here number (control fuel defs schema value) e value
