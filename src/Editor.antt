-- ===== src/Editor.antt =====
-- studio/src/features/resources/ResourceEditor.tsx: EditorForm, its state, its handlers and what it sends.
-- The page is the form together with the copy of the resource that it was opened on.
pub mod Steps
pub mod Yaml
pub mod Codec
pub mod Tests
use restitch_gateway.Prelude.{
  ℕ, zero, suc, ◌+◌, Bool, true, false, not, ◌&&◌, ◌||◌, Option, none, some, List, [], ◌∷◌, Str,
  codes, ◌===◌, ◌==◌, ltb, if◌then◌else◌,
}
use restitch_gateway.Access.{Role, editor, can}
use restitch_gateway.Values.{
  Value, undefined, null, str, arr, obj, Items, nil, cons, Fields, end, get_field, set_field,
}
use restitch_gateway.Errors.{Failure, api, other_error, unknown, error_message}

pub data View : Type 0 where
  form yaml : View

-- A mutation of TanStack Query.
pub data Mutation : Type 0 where
  idle : Mutation
  pending : Mutation
  failed : Failure → Mutation
  done : Mutation

-- What `YAML.parse` does: a value, or an exception with its message.
pub data ParsedYaml : Type 0 where
  parsed : Value → ParsedYaml
  thrown : Str → ParsedYaml

pub record EditorState : Type 0 where
  -- The props `initial` and `revision`.
  pub initial : Fields
  pub revision : ℕ
  pub body : Fields
  pub view : View
  pub yaml_text : Str
  pub yaml_error : Str
  pub deleting : Bool
  pub save : Mutation
  pub remove : Mutation

-- A resource as the server answers it.
pub record Saved : Type 0 where
  pub saved_revision : ℕ
  pub saved_body : Fields

pub data Effect : Type 0 where
  send_save : ℕ → Fields → Effect
  send_delete : ℕ → Effect
  refetch : Effect
  toast_saved : ℕ → Effect
  toast_deleted : Effect
  leave : Effect

pub data Event : Type 0 where
  choose_view : View → Event
  edit_body : Fields → Event
  edit_steps : Items → Event
  edit_yaml : Str → Event
  press_save : Event
  save_answered : Saved → Event
  save_refused : Failure → Event
  press_reload : Event
  -- The query of the resource has new data.
  loaded : Saved → Event
  press_delete : Event
  close_delete : Event
  confirm_delete : Event
  delete_answered : Event
  delete_refused : Failure → Event

unfoldable pub is_pending : Mutation → Bool
is_pending pending = true
is_pending _ = false

unfoldable pub is_yaml : View → Bool
is_yaml form = false
is_yaml yaml = true

-- `save.error instanceof ApiError && save.error.status === 409`.
unfoldable pub is_stale : Mutation → Bool
is_stale (failed (api e)) = e.status == 409
is_stale _ = false

-- The names of the steps that have one.
abbrev name_of : Value → List Str → List Str
name_of (str s) rest = s ∷ rest
name_of _ rest = rest

abbrev step_name : Value → List Str → List Str
step_name (obj o) rest = name_of (get_field o (codes "name")) rest
step_name _ rest = rest

unfoldable pub item_names : Items → List Str
item_names nil = []
item_names (cons v vs) = step_name v (item_names vs)

abbrev items_in : Value → Items
items_in (arr vs) = vs
items_in _ = nil

unfoldable pub step_names_of : Fields → List Str
step_names_of body = item_names (items_in (get_field body (codes "steps")))

-- `stringify` is `YAML.stringify` of an object, `parse` is `YAML.parse`, and `same` says that the JSON
-- texts of two objects agree.
module _ (stringify : Fields → Str) (parse : Str → ParsedYaml) (same : Fields → Fields → Bool) where
  unfoldable pub open_editor : Saved → EditorState
  open_editor r = record {
    initial = r.saved_body;
    revision = r.saved_revision;
    body = r.saved_body;
    view = form;
    yaml_text = stringify r.saved_body;
    yaml_error = [];
    deleting = false;
    save = idle;
    remove = idle;
  }

  unfoldable pub is_dirty : EditorState → Bool
  is_dirty st = not (same st.body st.initial)

  -- The button Save is there and enabled.
  unfoldable pub can_save : Option Str → EditorState → Bool
  can_save role st =
      can role editor && (is_dirty st && (not (is_pending st.save) && st.yaml_error === []))

  abbrev pub yaml_body : EditorState → Str → Value → EditorState
  yaml_body st text (obj o) = record st { yaml_text = text; body = o; yaml_error = [] }
  yaml_body st text undefined = record st { yaml_text = text; body = end; yaml_error = [] }
  yaml_body st text null = record st { yaml_text = text; body = end; yaml_error = [] }
  yaml_body st text _ = record st {
    yaml_text = text;
    yaml_error = codes "The resource must be a mapping.";
  }

  abbrev pub yaml_parsed : EditorState → Str → ParsedYaml → EditorState
  yaml_parsed st text (parsed v) = yaml_body st text v
  yaml_parsed st text (thrown message) = record st { yaml_text = text; yaml_error = message }

  unfoldable pub on_yaml : EditorState → Str → EditorState
  on_yaml st text = yaml_parsed st text (parse text)

  abbrev show_yaml : EditorState → Str → EditorState
  show_yaml st text =
      if st.yaml_text === text
      then record st { view = yaml }
      else on_yaml (record st { view = yaml }) text

  -- `setView` and the effect on `view`, which runs when the view has changed. CodeField is mounted on
  -- the old text; a new text goes into it as a change, and a change calls onChange.
  unfoldable pub on_view : EditorState → View → EditorState
  on_view st form = record st { view = form }
  on_view st yaml = if is_yaml st.view then st else show_yaml st (stringify st.body)

  -- New data of the resource: another revision is another key, so the form starts afresh.
  unfoldable pub on_loaded : EditorState → Saved → EditorState
  on_loaded st r =
      if r.saved_revision == st.revision
      then record st { initial = r.saved_body }
      else open_editor r

  -- The fieldset of a viewer disables the inputs but neither CodeMirror nor the graph, so edits are not
  -- tied to the role here; saving is.
  unfoldable pub editor_step : Option Str → EditorState → Event → EditorState × List Effect
  editor_step role st (choose_view v) = (on_view st v, [])
  editor_step role st (edit_body o) = (if is_yaml st.view then st else record st { body = o }, [])
  editor_step role st (edit_steps steps) = (
    if is_yaml st.view
        then st
        else record st { body = set_field st.body (codes "steps") (arr steps) },
    [],
  )
  editor_step role st (edit_yaml text) = (if is_yaml st.view then on_yaml st text else st, [])
  editor_step role st press_save =
      if can_save role st
      then (record st { save = pending }, send_save st.revision st.body ∷ [])
      else (st, [])
  editor_step role st (save_answered r) =
      (on_loaded (record st { save = done }) r, toast_saved r.saved_revision ∷ [])
  editor_step role st (save_refused e) = (record st { save = failed e }, [])
  editor_step role st press_reload = (st, if is_stale st.save then refetch ∷ [] else [])
  editor_step role st (loaded r) = (on_loaded st r, [])
  editor_step role st press_delete =
      (if can role editor && ltb 0 st.revision then record st { deleting = true } else st, [])
  editor_step role st close_delete = (record st { deleting = false }, [])
  editor_step role st confirm_delete =
      if st.deleting && not (is_pending st.remove)
      then (record st { remove = pending }, send_delete st.revision ∷ [])
      else (st, [])
  editor_step role st delete_answered = (record st { remove = done }, toast_deleted ∷ leave ∷ [])
  editor_step role st (delete_refused e) = (record st { remove = failed e }, [])
