-- ===== src/SchemaForm/Root.antt =====
-- studio/src/features/resources/schema-form.tsx: the form of a whole resource, which is ObjectFields on its
-- body.
use restitch_gateway.Prelude.{
  ℕ, ◌≡◌, subst, Option, none, some, ◌∷◌, Str, Option-cases, inl, inr, refl,
}
use mathlib.Core.Option.{some-injective}
use restitch_gateway.Values.{Value, obj, Fields, get_field}
use restitch_gateway.SchemaForm.{Schema, Defs, resolve, set_key}
use restitch_gateway.SchemaForm.Change.{
  Edit, in_key, find_entry, object_entries, fields_of, change, put_key,
}
use restitch_gateway.SchemaForm.Paths.{
  key, path_of, AgreeOff, put_key-some, put_key_frame, change-AgreeOff,
}

module _ (number : Str → Str) (fuel : ℕ) (defs : Defs) where
  -- ObjectFields of the whole body: its fields are shown for any schema with properties.
  unfoldable pub change_root : Edit → Schema → Fields → Option Value
  change_root (in_key k e) schema body =
      elim (find_entry (object_entries (resolve fuel defs schema)) k) [
        | none ↦ none
        | some s ↦ put_key (some body) k (change number fuel defs e s (get_field body k))
      ]
  change_root _ schema body = none

-- An edit anywhere in the form of a resource, which shows the properties of its schema, gives a new body
-- that differs from the old one only at the path of the edited field: every path that parts from it
-- reads the same.
pub change_root-AgreeOff :
    (number : Str → Str) (fuel : ℕ) (defs : Defs) (e : Edit) (schema : Schema) (body : Fields)
    (v : Value)
    → change_root number fuel defs e schema body ≡ some v
    → AgreeOff (path_of e) (obj body) v
unfolding change_root path_of fields_of
change_root-AgreeOff number fuel defs (in_key k e) schema body v h =
    elim (Option-cases (find_entry (object_entries (resolve fuel defs schema)) k)) [
      | inl hidden ↦ absurd (cc (rw (change_root, hidden) at h))
      | inr (s, shown) ↦
          let (o, w, is_o, inner, e') =
            put_key-some (some body) k (change number fuel defs e s (get_field body k)) v
              (rw (change_root, shown) at h) in
          let same : body ≡ o = some-injective body o is_o in
          subst (AgreeOff (key k ∷ path_of e) (obj body)) e' (
            subst (λ o. AgreeOff (key k ∷ path_of e) (obj body) (obj (set_key o k w))) same
              (put_key_frame (obj body) body k w (path_of e) refl
                (change-AgreeOff number fuel defs e s (get_field body k) w inner)))
    ]
change_root-AgreeOff number fuel defs _ schema body v h = absurd (cc h)
