-- ===== src/Editor/Tests.antt =====
-- Runs of the editor: an edit in the form, a look at the YAML, and a save.
use restitch_gateway.Prelude.{
  ◌≡◌, refl, ◌⊎◌, Bool, true, false, Option, none, some, List, [], ◌∷◌, Str, codes, ◌===◌, ◌==◌,
}
use restitch_gateway.Access.{editor, can, is_role, role_index}
use restitch_gateway.Values.{str, Fields, end, field}
use restitch_gateway.Errors.{ApiError, api}
use restitch_gateway.Editor.{
  form, yaml, send_save, EditorState, Saved, Event, choose_view, edit_body, press_save,
  save_refused, press_reload, loaded, open_editor, editor_step, can_save, is_dirty, is_pending,
  is_yaml, on_view, on_yaml,
}
use restitch_gateway.Editor.Yaml.{Reachable, opened, after, parsed_body, press_save-send_save}
use restitch_gateway.Editor.Steps.{AreBasedOn, editor_step-AreBasedOn}
use restitch_gateway.Editor.Codec.{
  write, parse_text, write-IsYamlLibrary, put_text, put_value, size_value, take_text, take_value,
}

abbrev same : Fields → Fields → Bool
same a b = write a === write b

abbrev edits : Option Str
edits = some (codes "editor")

abbrev url : Str → Fields
url u = field (codes "url") (str u) end

abbrev read : Saved
read = record { saved_revision = 3; saved_body = url (codes "a") }

abbrev opened_at : EditorState
opened_at = open_editor write parse_text same read

abbrev edited : EditorState
edited = (editor_step write parse_text same edits opened_at (edit_body (url (codes "b")))).0

abbrev seen : EditorState
seen = (editor_step write parse_text same edits edited (choose_view yaml)).0

seen-Reachable : Reachable write parse_text same edits seen
seen-Reachable =
    after edited (choose_view yaml) (after opened_at (edit_body (url (codes "b"))) (opened read))

sent :
    (editor_step write parse_text same edits seen press_save).1 ≡ send_save 3 (url (codes "b")) ∷ []
unfolding editor_step open_editor can_save is_dirty is_pending is_yaml on_view on_yaml write
    parse_text put_text put_value size_value take_text take_value can is_role role_index ◌===◌
sent = refl

press_save-send_save_example :
    (can edits editor ≡ true)
    × (3 ≡ seen.revision)
    × (url (codes "b") ≡ seen.body)
    × (same (url (codes "b")) seen.initial ≡ false)
    × (is_pending seen.save ≡ false)
    × ((seen.yaml_error === []) ≡ true)
    × ((seen.view ≡ form) ⊎ (parsed_body (parse_text seen.yaml_text) ≡ some (url (codes "b"))))
press_save-send_save_example =
    press_save-send_save write parse_text same write-IsYamlLibrary edits seen 3 (url (codes "b"))
      seen-Reachable sent

abbrev conflict : ApiError
conflict = record { status = 409; code = codes "conflict"; message = []; details = none }

abbrev newer : Saved
newer = record { saved_revision = 4; saved_body = url (codes "c") }

later : (newer.saved_revision == seen.revision) ≡ false
unfolding editor_step open_editor can_save is_dirty is_pending is_yaml on_view on_yaml write
    parse_text put_text put_value size_value take_text take_value ◌===◌
later = refl

-- A conflict, the reload of the newer revision, another edit and a save.
abbrev conflicting : List Event
conflicting =
    edit_body (url (codes "b"))
    ∷ press_save
    ∷ save_refused (api conflict)
    ∷ press_reload
    ∷ loaded newer
    ∷ edit_body (url (codes "d"))
    ∷ press_save
    ∷ []

editor_step-AreBasedOn_example :
    AreBasedOn write parse_text same edits conflicting (open_editor write parse_text same read) read
editor_step-AreBasedOn_example = editor_step-AreBasedOn write parse_text same edits read conflicting
