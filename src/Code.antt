-- ===== src/Code.antt =====
-- studio/src/features/resources/code-field.tsx: CodeField, the editor of a YAML or JSON text, with the
-- state variable of its parent in which the text is kept.
pub mod Sync
pub mod Reports
pub mod Screen
pub mod Tests
use restitch_gateway.Prelude.{
  Bool, true, false, not, List, [], ◌∷◌, ◌++◌, Str, ◌===◌, if◌then◌else◌,
}

pub data Language : Type 0 where
  yaml json : Language

pub record Field : Type 0 where
  -- The text of the parent, `yamlText` of EditorForm or `text` of FreeField: the next prop `value`.
  pub value : Str
  -- The prop `value` of the last render, for which the effect on `value` ran.
  pub rendered : Str
  pub language : Language
  pub dark : Bool
  pub initial_dark : Bool
  -- The text of the document of CodeMirror, and whether its theme is the dark one.
  pub doc : Str
  pub dark_theme : Bool

pub data FieldEvent : Type 0 where
  -- The user changed the document to a text.
  typed : Str → FieldEvent
  -- The parent took another text.
  set_value : Str → FieldEvent
  set_language : Language → FieldEvent
  set_dark : Bool → FieldEvent

unfoldable pub same_language : Language → Language → Bool
same_language yaml yaml = true
same_language json json = true
same_language _ _ = false

abbrev same_dark : Bool → Bool → Bool
same_dark true d = d
same_dark false d = not d

-- The effect on `dark`, which runs when the class of the page has changed.
unfoldable pub on_dark : Bool → Field → Field
on_dark d f = if same_dark d f.dark then f else record f { dark = d; dark_theme = d }

-- A document of CodeMirror is a list of lines: `lines` is the text that `doc.toString()` gives for a
-- document made from a text.
module _ (lines : Str → Str) where
  -- A document is changed to a text, and the listener gives its text to onChange, which stores it.
  unfoldable pub dispatch : Str → Field → Field × List Str
  dispatch text f = (record f { doc = lines text; value = lines text }, lines text ∷ [])

  -- The effect on `value`.
  unfoldable pub sync_value : Field → Field × List Str
  sync_value f = if f.doc === f.value then (f, []) else dispatch f.value f

  unfoldable pub render_value : Field → Field × List Str
  render_value f =
      if f.rendered === f.value then (f, []) else sync_value (record f { rendered = f.value })

  -- React renders again while the text is new; two renders are enough.
  unfoldable pub settle : Field × List Str → Field × List Str
  settle (f, told) =
      let (g, first) = render_value f in
      let (h, second) = render_value g in (h, told ++ first ++ second)

  -- The first effect makes the editor, the last one compares its text with the prop.
  unfoldable pub mount_field : Str → Language → Bool → Field × List Str
  mount_field text l d = settle (
      sync_value (record {
        value = text;
        rendered = text;
        language = l;
        dark = d;
        initial_dark = d;
        doc = lines text;
        dark_theme = d;
      }))

  -- Another language makes a new editor, with the theme of the first render.
  unfoldable pub on_language : Language → Field → Field
  on_language l f =
      if same_language l f.language
      then f
      else record f { language = l; doc = lines f.value; dark_theme = f.initial_dark }

  unfoldable pub field_step : FieldEvent → Field → Field × List Str
  field_step (typed text) f = settle (dispatch text f)
  field_step (set_value text) f = settle (record f { value = text }, [])
  field_step (set_language l) f = settle (on_language l f, [])
  field_step (set_dark d) f = settle (on_dark d f, [])

  -- The state after some events, and the texts that onChange was given.
  unfoldable pub field_run : List FieldEvent → Field → Field × List Str
  field_run [] f = (f, [])
  field_run (e ∷ es) f =
      let (g, first) = field_step e f in let (h, second) = field_run es g in (h, first ++ second)
