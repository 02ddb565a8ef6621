-- ===== src/SchemaForm/Tests.antt =====
-- Runs of a form for a composition with one step.
use restitch_gateway.Prelude.{
  ◌≡◌, refl, true, false, none, some, [], ◌∷◌, Str, codes, ◌===◌, arith, Bool-cases, inl, inr,
}
use restitch_gateway.Text.{trim, trim_start, is_space, split, push_front, starts_with}
use restitch_gateway.Values.{
  Value, str, arr, obj, nil, cons, Fields, end, field, get_field, set_field, delete_field, keys,
}
use restitch_gateway.SchemaForm.{
  Schema, ref, shape, fields, missing, listed, last, entry, absent, one, Defs, Resolved, resolve,
  ref_name, lookup, has_type, properties, has_additional, items_schema, is_present, shape_control,
  control, is_empty_value, set_key,
}
use restitch_gateway.SchemaForm.Change.{
  Edit, in_key, in_item, enter, add_entry, find_entry, fields_of, list_of, get_item, replace_at,
  entered, open_entries, list_entries, object_entries, change_here, change, change_map, is_in,
}
use restitch_gateway.SchemaForm.Inputs.{takes_secret, star_index, star_tail}
use restitch_gateway.SchemaForm.Resolve.{IsRanked, resolve_ends}
use restitch_gateway.SchemaForm.Paths.{AgreeOff, path_of, change-AgreeOff}
use restitch_gateway.SchemaForm.Root.{change_root, change_root-AgreeOff}
use restitch_gateway.SchemaForm.Lists.{IsPart}

abbrev same : Str → Str
same s = s

abbrev text_schema : Schema
text_schema = shape (fields (some (codes "string")) missing absent absent none none)

abbrev step_schema : Schema
step_schema = shape (
    fields (some (codes "object"))
      (listed (entry (codes "name") text_schema (entry (codes "path") text_schema last))) absent
      absent none none)

abbrev steps_schema : Schema
steps_schema =
    shape
      (fields (some (codes "array")) missing absent (one (ref (codes "#/$defs/step"))) none none)

abbrev root : Schema
root = shape (
    fields (some (codes "object")) (listed (entry (codes "steps") steps_schema last)) absent absent
      none none)

abbrev defs : Defs
defs = (codes "step", step_schema) ∷ []

abbrev step : Str → Value
step path = obj (field (codes "name") (str (codes "a")) (field (codes "path") (str path) end))

abbrev body : Str → Value
body path = obj (field (codes "steps") (arr (cons (step path) nil)) end)

abbrev edit : Edit
edit = in_key (codes "steps") (in_item 0 (codes "path") (enter (codes "/v2")))

edited : change same 2 defs edit root (body (codes "/v1")) ≡ some (body (codes "/v2"))
unfolding change change_here entered control resolve ref_name lookup has_type properties
    has_additional items_schema is_present shape_control find_entry fields_of list_of get_item
    replace_at open_entries list_entries object_entries set_key is_empty_value set_field get_field
    delete_field starts_with ◌===◌
edited = refl

change-AgreeOff_example : AgreeOff (path_of edit) (body (codes "/v1")) (body (codes "/v2"))
change-AgreeOff_example =
    change-AgreeOff same 2 defs edit root (body (codes "/v1")) (body (codes "/v2")) edited

abbrev root_body : Str → Fields
root_body path = field (codes "steps") (arr (cons (step path) nil)) end

-- The form shows the properties of a schema that names no type.
abbrev untyped : Schema
untyped =
    shape (fields none (listed (entry (codes "steps") steps_schema last)) absent absent none none)

root_edited :
    change_root same 2 defs edit untyped (root_body (codes "/v1")) ≡ some (body (codes "/v2"))
unfolding change_root change change_here entered control resolve ref_name lookup has_type properties
    has_additional items_schema is_present shape_control find_entry fields_of list_of get_item
    replace_at open_entries list_entries object_entries set_key is_empty_value set_field get_field
    delete_field starts_with ◌===◌
root_edited = refl

change_root-AgreeOff_example : AgreeOff (path_of edit) (body (codes "/v1")) (body (codes "/v2"))
change_root-AgreeOff_example =
    change_root-AgreeOff same 2 defs edit untyped (root_body (codes "/v1")) (body (codes "/v2"))
      root_edited

no_rank : IsRanked defs (λ _. 0)
unfolding lookup
no_rank name target h = elim (Bool-cases (codes "step" === name)) [
  | inl e ↦ ground (arith, e, h)
  | inr e ↦ absurd (cc (rw (lookup, e) at h))
]

resolve_ends_example :
    (r : Resolved) × (resolve 1 defs (ref (codes "#/$defs/step")) ≡ some r)
    × (resolve 5 defs (ref (codes "#/$defs/step")) ≡ some r)
resolve_ends_example =
    resolve_ends defs (λ _. 0) 5 (ref (codes "#/$defs/step")) no_rank (omega arith)

a-IsPart : IsPart (codes "k1")
unfolding trim trim_start is_space ◌===◌
a-IsPart = record { full = refl; no_comma = refl; trimmed = refl }

abbrev headers : Fields
headers = field (codes "accept") (str (codes "text/plain")) end

abbrev longer : Value
longer =
    obj (field (codes "accept") (str (codes "text/plain")) (field (codes "x-key") (str []) end))

added : change_map headers (add_entry (codes " x-key ")) ≡ some longer
unfolding change_map is_in keys trim trim_start is_space set_field ◌===◌
added = refl

-- A header cannot have the name of a member that every object inherits.
no_constructor : change_map headers (add_entry (codes "constructor")) ≡ none
unfolding change_map is_in keys trim trim_start is_space ◌===◌
no_constructor = refl

secret_body : takes_secret (codes "composition.steps.0.body") ≡ true
unfolding takes_secret star_index star_tail split push_front ◌===◌
secret_body = refl

not_secret : takes_secret (codes "composition.steps.0.method") ≡ false
unfolding takes_secret star_index star_tail split push_front ◌===◌
not_secret = refl
