-- ===== src/Code/Tests.antt =====
-- Documents of CodeMirror whose lines end with a line feed, and a text with other line ends.
use restitch_gateway.Prelude.{
  Option, some, ◌⊎◌, ◌≡◌, refl, ap, Bool, true, false, ◌&&◌, List, [], ◌∷◌, ◌++◌, Str, codes, ◌===◌,
  ◌==◌, if◌then◌else◌, inl, inr, Bool-cases,
}
use restitch_gateway.Values.{str, Fields, end, field}
use restitch_gateway.Editor.{
  yaml, EditorState, Saved, choose_view, open_editor, editor_step, is_yaml, on_view,
}
use restitch_gateway.Editor.Yaml.{Reachable, opened, after, parsed_body}
use restitch_gateway.Editor.Codec.{
  write, parse_text, write-IsYamlLibrary, put_text, put_value, size_fields,
}
use restitch_gateway.Code
use restitch_gateway.Code.{
  Language, Field, FieldEvent, typed, set_value, set_language, set_dark, same_language, on_dark,
  dispatch, sync_value, render_value, settle, mount_field, on_language, field_step, field_run,
}
use restitch_gateway.Code.Sync.{IsInSync, field_run-IsInSync}
use restitch_gateway.Code.Reports.{edits_of, field_run-edits_of}
use restitch_gateway.Code.Screen.{editor_after, field_run-take_edits}

-- A carriage return, with or without a line feed, ends a line as a line feed does.
unfoldable lines_from : Bool → Str → Str
lines_from after_return [] = []
lines_from after_return (c ∷ s) =
    let rest = lines_from (c == 13) s in
    if c == 13 then 10 ∷ rest else if after_return && c == 10 then rest else c ∷ rest

abbrev lines : Str → Str
lines = lines_from false

lines_idempotent : (b : Bool) (s : Str) → lines (lines_from b s) ≡ lines_from b s
unfolding lines_from
lines_idempotent b [] = refl
lines_idempotent b (c ∷ s) = elim (Bool-cases (c == 13)) [
  | inl e ↦ rw e (ap (λ t. 10 ∷ t) (lines_idempotent true s))
  | inr e ↦ elim (Bool-cases (b && c == 10)) [
    | inl f ↦ rw (e, f) (lines_idempotent false s)
    | inr f ↦ rw (e, f) (rw e (ap (λ t. c ∷ t) (lines_idempotent false s)))
  ]
]

idempotent : (s : Str) → lines (lines s) ≡ lines s
idempotent = lines_idempotent false

-- "a", a carriage return, a line feed, "b".
abbrev windows : Str
windows = 97 ∷ 13 ∷ 10 ∷ 98 ∷ []

abbrev mounted : Field
mounted = (mount_field lines windows Code.yaml true).0

abbrev events : List FieldEvent
events = typed (codes "x") ∷ set_dark false ∷ set_language Code.json ∷ typed (codes "xy") ∷ []

-- The parent is told the text of the document at once.
mounted_told : (mount_field lines windows Code.yaml true).1 ≡ (97 ∷ 10 ∷ 98 ∷ []) ∷ []
unfolding mount_field sync_value dispatch settle render_value lines_from ◌===◌
mounted_told = refl

field_run-IsInSync_example : IsInSync lines (field_run lines (set_value windows ∷ events) mounted).0
field_run-IsInSync_example =
    field_run-IsInSync lines idempotent windows Code.yaml true (set_value windows ∷ events)

field_run-edits_of_example :
    (mount_field lines windows Code.yaml true).1 ++ (field_run lines events mounted).1
    ≡ (if lines windows === windows then [] else lines windows ∷ []) ++ edits_of lines events
field_run-edits_of_example = field_run-edits_of lines idempotent windows Code.yaml true events refl

-- An editor made for another language has the theme of the first render, not that of the page.
language_theme :
    (field_run lines (set_dark false ∷ set_language Code.json ∷ []) mounted).0.dark_theme ≡ true
unfolding mount_field sync_value dispatch settle render_value lines_from ◌===◌ field_run field_step
    on_dark on_language same_language
language_theme = refl

abbrev same : Fields → Fields → Bool
same a b = write a === write b

abbrev edits : Option Str
edits = some (codes "editor")

abbrev read : Saved
read = record { saved_revision = 3; saved_body = field (codes "url") (str (codes "a")) end }

abbrev opened_at : EditorState
opened_at = open_editor write parse_text same read

abbrev seen : EditorState
seen = (editor_step write parse_text same edits opened_at (choose_view yaml)).0

seen-Reachable : Reachable write parse_text same edits seen
seen-Reachable = after opened_at (choose_view yaml) (opened read)

seen_yaml : is_yaml seen.view ≡ true
unfolding editor_step open_editor is_yaml on_view write put_text put_value size_fields ◌===◌
seen_yaml = refl

abbrev shown : Field
shown = record {
  value = seen.yaml_text;
  rendered = seen.yaml_text;
  language = Code.yaml;
  dark = true;
  initial_dark = true;
  doc = seen.yaml_text;
  dark_theme = true;
}

shown-IsInSync : IsInSync lines shown
unfolding editor_step open_editor is_yaml on_view write put_text put_value size_fields ◌===◌
    lines_from
shown-IsInSync = (refl, refl, refl)

field_run-take_edits_example :
    ((field_run lines events shown).0.doc
      ≡ (editor_after write parse_text same lines edits events shown seen).yaml_text)
    × ((((editor_after write parse_text same lines edits events shown seen).yaml_error === [])
          ≡ false)
        ⊎ (parsed_body (parse_text (field_run lines events shown).0.doc)
            ≡ some (editor_after write parse_text same lines edits events shown seen).body))
field_run-take_edits_example =
    field_run-take_edits write parse_text same lines idempotent write-IsYamlLibrary edits seen shown
      events seen-Reachable seen_yaml shown-IsInSync refl refl
