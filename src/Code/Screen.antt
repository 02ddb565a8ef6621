-- ===== src/Code/Screen.antt =====
-- The YAML view of ResourceEditor.tsx with its CodeField: what is on the screen is what is saved.
use restitch_gateway.Prelude.{
  ◌≡◌, refl, sym, ap, ◌∙◌, Bool, true, false, ◌⊎◌, Option, some, List, [], ◌∷◌, ◌++◌, every, Str,
  ◌===◌, ===_refl, inl, inr, Bool-cases, arith,
}
use restitch_gateway.Values.{Value, undefined, null, bool, num, str, arr, obj, Fields}
use restitch_gateway.Editor.{
  View, form, ParsedYaml, parsed, thrown, EditorState, edit_yaml, is_yaml, yaml_body, yaml_parsed,
  on_yaml, editor_step,
}
use restitch_gateway.Editor.Yaml.{IsYamlLibrary, parsed_body, Reachable, after, reachable-InStep}
use restitch_gateway.Code.{
  Language, Field, FieldEvent, typed, set_value, set_language, set_dark, same_language, on_dark,
  dispatch, sync_value, render_value, settle, on_language, field_step, field_run,
}
use restitch_gateway.Code.Sync.{
  IsInSync, render-quiet, render-IsInSync, on_language-IsInSync, on_dark-IsInSync, step-IsInSync,
  run-IsInSync,
}
use restitch_gateway.Code.Reports.{is_outside, step-told}

module _ (stringify : Fields → Str) (parse : Str → ParsedYaml) (same : Fields → Fields → Bool) where
  -- The editor takes the texts that its field gives it.
  unfoldable pub take_edits : Option Str → List Str → EditorState → EditorState
  take_edits role [] st = st
  take_edits role (text ∷ texts) st =
      take_edits role texts (editor_step stringify parse same role st (edit_yaml text)).0

  take_edits-Reachable :
      (role : Option Str) (texts : List Str) (st : EditorState)
      → Reachable stringify parse same role st
      → Reachable stringify parse same role (take_edits role texts st)
  unfolding take_edits
  take_edits-Reachable role [] st r = r
  take_edits-Reachable role (text ∷ texts) st r =
      take_edits-Reachable role texts _ (after st (edit_yaml text) r)

  yaml_body-text :
      (st : EditorState) (text : Str) (v : Value)
      → ((yaml_body stringify parse same st text v).yaml_text ≡ text)
        × ((yaml_body stringify parse same st text v).view ≡ st.view)
  yaml_body-text st text (obj o) = (refl, refl)
  yaml_body-text st text undefined = (refl, refl)
  yaml_body-text st text null = (refl, refl)
  yaml_body-text st text (bool b) = (refl, refl)
  yaml_body-text st text (num n) = (refl, refl)
  yaml_body-text st text (str s) = (refl, refl)
  yaml_body-text st text (arr vs) = (refl, refl)

  yaml_parsed-text :
      (st : EditorState) (text : Str) (p : ParsedYaml)
      → ((yaml_parsed stringify parse same st text p).yaml_text ≡ text)
        × ((yaml_parsed stringify parse same st text p).view ≡ st.view)
  yaml_parsed-text st text (parsed v) = yaml_body-text st text v
  yaml_parsed-text st text (thrown message) = (refl, refl)

  edit_yaml-text :
      (role : Option Str) (st : EditorState) (text : Str)
      → is_yaml st.view ≡ true
      → ((editor_step stringify parse same role st (edit_yaml text)).0.yaml_text ≡ text)
        × ((editor_step stringify parse same role st (edit_yaml text)).0.view ≡ st.view)
  unfolding editor_step on_yaml
  edit_yaml-text role st text y = rw y (yaml_parsed-text st text (parse text))

  take_edits-append :
      (role : Option Str) (xs ys : List Str) (st : EditorState)
      → take_edits role (xs ++ ys) st ≡ take_edits role ys (take_edits role xs st)
  unfolding take_edits
  take_edits-append role [] ys st = refl
  take_edits-append role (x ∷ xs) ys st = take_edits-append role xs ys _

  module _ (lines : Str → Str) where
    -- The editor after the field told it about some events.
    abbrev pub editor_after : Option Str → List FieldEvent → Field → EditorState → EditorState
    editor_after role es f st = take_edits role (field_run lines es f).1 st

  module _ (lines : Str → Str) (idempotent : (s : Str) → lines (lines s) ≡ lines s) where
    -- The editor has the YAML view open with the text of the field.
    abbrev pub IsShown : EditorState → Field → Type 0
    IsShown st f = (is_yaml st.view ≡ true) × (st.yaml_text ≡ f.value)

    render-value : (f : Field) → f.doc ≡ f.value → (render_value lines f).0.value ≡ f.value
    unfolding render_value sync_value
    render-value f h = elim (Bool-cases (f.rendered === f.value)) [
      | inl e ↦ rw e refl
      | inr e ↦
          let as_is : (f.doc === f.value) ≡ true = rw h (===_refl f.value) in rw (e, as_is) refl
    ]

    settle-value :
        (f : Field) (told : List Str)
        → f.doc ≡ f.value
        → lines f.value ≡ f.value
        → (settle lines (f, told)).0.value ≡ f.value
    unfolding settle
    settle-value f told h l =
        let (d, r, n) = render-IsInSync lines idempotent f h l in
        rw (render-quiet lines idempotent (render_value lines f).0 r) (render-value f h)

    on_language-value : (l : Language) (f : Field) → (on_language lines l f).value ≡ f.value
    unfolding on_language
    on_language-value l f = elim (Bool-cases (same_language l f.language)) [
      | inl e ↦ rw e refl
      | inr e ↦ rw e refl
    ]

    on_dark-value : (b : Bool) (f : Field) → (on_dark b f).value ≡ f.value
    unfolding on_dark
    on_dark-value true f = elim (Bool-cases f.dark) [ inl e ↦ rw e refl | inr e ↦ rw e refl ]
    on_dark-value false f = elim (Bool-cases f.dark) [ inl e ↦ rw e refl | inr e ↦ rw e refl ]

    step-IsShown :
        (role : Option Str) (st : EditorState) (e : FieldEvent) (f : Field)
        → is_outside e ≡ true
        → IsInSync lines f
        → IsShown st f
        → IsShown (take_edits role (field_step lines e f).1 st) (field_step lines e f).0
    unfolding take_edits field_step dispatch
    step-IsShown role st (typed text) f o h (y, t) =
        rw (step-told lines idempotent (typed text) f o h) (
          let (edited, view) = edit_yaml-text role st (lines text) y in
          (rw view y, edited ∙ sym (settle-value _ _ refl (idempotent text))))
    step-IsShown role st (set_value text) f o h s = cc
    step-IsShown role st (set_language l) f o h (y, t) =
        let (d, r, n) = on_language-IsInSync lines idempotent l f h in
        rw (step-told lines idempotent (set_language l) f o h)
          (y, t ∙ sym (settle-value (on_language lines l f) [] d n ∙ on_language-value l f))
    step-IsShown role st (set_dark b) f o h (y, t) =
        let (d, r, n) = on_dark-IsInSync lines idempotent b f h in
        rw (step-told lines idempotent (set_dark b) f o h)
          (y, t ∙ sym (settle-value (on_dark b f) [] d n ∙ on_dark-value b f))

    run-IsShown :
        (role : Option Str) (es : List FieldEvent) (st : EditorState) (f : Field)
        → every is_outside es ≡ true
        → IsInSync lines f
        → IsShown st f
        → IsShown (take_edits role (field_run lines es f).1 st) (field_run lines es f).0
    unfolding field_run take_edits
    run-IsShown role [] st f o h s = s
    run-IsShown role (e ∷ es) st f o h s =
        rw
          (take_edits-append role (field_step lines e f).1
            (field_run lines es (field_step lines e f).0).1 st)
          (run-IsShown role es (take_edits role (field_step lines e f).1 st)
            (field_step lines e f).0 (ground (arith, o)) (step-IsInSync lines idempotent e f h)
            (step-IsShown role st e f (ground (arith, o)) h s))

    form_hidden : (v : View) → v ≡ form → is_yaml v ≡ true → ⊥
    unfolding is_yaml
    form_hidden v f y = cc (f, y)

    -- With a YAML library that reads back what it wrote and explains what it refuses, and when the text
    -- of a document made from the text of a document is that text: take an editor that was reached from
    -- the opening of a resource and shows the YAML view, and a field in sync that shows its text. After
    -- any events but a text set by the parent, the document on the screen is the YAML text of the
    -- editor, and the editor shows an error or its body is what the document stands for.
    pub field_run-take_edits :
        (library : IsYamlLibrary stringify parse) (role : Option Str) (st : EditorState) (f : Field)
        (es : List FieldEvent)
        → Reachable stringify parse same role st
        → is_yaml st.view ≡ true
        → IsInSync lines f
        → st.yaml_text ≡ f.value
        → every is_outside es ≡ true
        → ((field_run lines es f).0.doc ≡ (editor_after lines role es f st).yaml_text)
          × ((((editor_after lines role es f st).yaml_error === []) ≡ false)
              ⊎ (parsed_body (parse (field_run lines es f).0.doc)
                  ≡ some (editor_after lines role es f st).body))
    field_run-take_edits library role st f es r y h t o =
        let texts = (field_run lines es f).1 in
        let (shown, text) = run-IsShown role es st f o h (y, t) in
        let (doc, _, _) = run-IsInSync lines idempotent es f h in
        let on_screen : (field_run lines es f).0.doc ≡ (take_edits role texts st).yaml_text =
          doc ∙ sym text in
        (
          on_screen,
          elim (reachable-InStep stringify parse same library role _
              (take_edits-Reachable role texts st r)) [
                | inl in_form ↦ absurd (form_hidden _ in_form shown)
                | inr (inl wrong) ↦ inl wrong
                | inr (inr reads) ↦ inr (ap (λ s. parsed_body (parse s)) on_screen ∙ reads)
              ],
        )
