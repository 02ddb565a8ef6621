-- ===== src/Editor/Yaml.antt =====
-- The YAML text of ResourceEditor.tsx and the resource that is saved.
use restitch_gateway.Prelude.{
  ℕ, ◌≡◌, refl, sym, ap, ◌∙◌, subst, Bool, true, false, not, ◌&&◌, ◌⊎◌, inl, inr, Option, none,
  some, [], ◌∷◌, arith, Str, codes, ◌===◌, ===→eq, ◌==◌, if◌then◌else◌, Bool-cases,
}
use restitch_gateway.Access.{editor, can}
use restitch_gateway.Values.{
  Value, undefined, null, bool, num, str, arr, obj, Fields, end, set_field,
}
use restitch_gateway.Editor.{
  View, form, yaml, done, ParsedYaml, parsed, thrown, EditorState, Saved, send_save, Event,
  choose_view, edit_body, edit_steps, edit_yaml, press_save, save_answered, save_refused,
  press_reload, loaded, press_delete, close_delete, confirm_delete, delete_answered, delete_refused,
  is_pending, is_yaml, open_editor, is_dirty, can_save, yaml_body, yaml_parsed, on_yaml, on_view,
  on_loaded, editor_step,
}

-- The resource that a text stands for: a mapping, or nothing for an empty one.
abbrev pub value_body : Value → Option Fields
value_body (obj o) = some o
value_body undefined = some end
value_body null = some end
value_body _ = none

abbrev pub parsed_body : ParsedYaml → Option Fields
parsed_body (parsed v) = value_body v
parsed_body (thrown message) = none

-- What the YAML library promises: reading what it wrote gives the same mapping, and an exception
-- carries a message.
pub record IsYamlLibrary (stringify : Fields → Str) (parse : Str → ParsedYaml) : Type 0 where
  pub reads_back : (o : Fields) → parse (stringify o) ≡ parsed (obj o)
  pub explains : (text message : Str) → parse text ≡ thrown message → (message === []) ≡ false

module _ (stringify : Fields → Str) (parse : Str → ParsedYaml) (same : Fields → Fields → Bool) where
  -- The events of a user and of the server, from the opening on.
  pub data Reachable (role : Option Str) : EditorState → Type 0 where
    opened : (r : Saved) → Reachable role (open_editor stringify parse same r)
    after :
        (st : EditorState) (e : Event)
        → Reachable role st
        → Reachable role (editor_step stringify parse same role st e).0

  -- The form is shown, or the text is marked as wrong, or the text stands for the body.
  abbrev pub InStep : EditorState → Type 0
  InStep st =
      (st.view ≡ form)
      ⊎ ((st.yaml_error === []) ≡ false)
      ⊎ (parsed_body (parse st.yaml_text) ≡ some st.body)

  module _ (library : IsYamlLibrary stringify parse) where
    yaml_body-InStep :
        (st : EditorState) (text : Str) (v : Value)
        → parse text ≡ parsed v
        → InStep (yaml_body stringify parse same st text v)
    unfolding ◌===◌
    yaml_body-InStep st text (obj o) h = inr (inr (rw h refl))
    yaml_body-InStep st text undefined h = inr (inr (rw h refl))
    yaml_body-InStep st text null h = inr (inr (rw h refl))
    yaml_body-InStep st text (bool b) h = inr (inl refl)
    yaml_body-InStep st text (num n) h = inr (inl refl)
    yaml_body-InStep st text (str s) h = inr (inl refl)
    yaml_body-InStep st text (arr vs) h = inr (inl refl)

    yaml_parsed-InStep :
        (st : EditorState) (text : Str) (p : ParsedYaml)
        → parse text ≡ p
        → InStep (yaml_parsed stringify parse same st text p)
    yaml_parsed-InStep st text (parsed v) h = yaml_body-InStep st text v h
    yaml_parsed-InStep st text (thrown message) h = inr (inl (library.explains text message h))

    on_yaml-InStep : (st : EditorState) (text : Str) → InStep (on_yaml stringify parse same st text)
    unfolding on_yaml
    on_yaml-InStep st text = yaml_parsed-InStep st text (parse text) refl

    on_view-InStep :
        (st : EditorState) (v : View) → InStep st → InStep (on_view stringify parse same st v)
    unfolding on_view
    on_view-InStep st form h = inl refl
    on_view-InStep st yaml h = elim (Bool-cases (is_yaml st.view)) [
      | inl e ↦ rw e h
      | inr e ↦ elim (Bool-cases (st.yaml_text === stringify st.body)) [
        | inl as_is ↦
            rw (e, as_is)
              (inr (
                inr (
                  ap (λ t. parsed_body (parse t)) (===→eq st.yaml_text (stringify st.body) as_is)
                  ∙ ap parsed_body (library.reads_back st.body))))
        | inr new ↦ rw (e, new) (on_yaml-InStep _ (stringify st.body))
      ]
    ]

    on_loaded-InStep :
        (st : EditorState) (r : Saved) → InStep st → InStep (on_loaded stringify parse same st r)
    unfolding on_loaded open_editor
    on_loaded-InStep st r h = elim (Bool-cases (r.saved_revision == st.revision)) [
      | inl e ↦ rw e h
      | inr e ↦ rw e (inl refl)
    ]

    form_view : (v : View) → is_yaml v ≡ false → v ≡ form
    unfolding is_yaml
    form_view form h = refl
    form_view yaml h = absurd (cc h)

    edit-InStep :
        (st st' : EditorState)
        → st'.view ≡ st.view
        → InStep st
        → InStep (if is_yaml st.view then st else st')
    edit-InStep st st' v h = elim (Bool-cases (is_yaml st.view)) [
      | inl e ↦ rw e h
      | inr e ↦ rw e (inl (v ∙ form_view st.view e))
    ]

    if-InStep :
        (b : Bool) (st st' : EditorState) → InStep st → InStep st' → InStep (if b then st' else st)
    if-InStep true st st' h h' = h'
    if-InStep false st st' h h' = h

    step-InStep :
        (role : Option Str) (st : EditorState) (e : Event)
        → InStep st
        → InStep (editor_step stringify parse same role st e).0
    unfolding editor_step
    step-InStep role st (choose_view v) h = on_view-InStep st v h
    step-InStep role st (edit_body o) h = edit-InStep st (record st { body = o }) refl h
    step-InStep role st (edit_steps steps) h =
        edit-InStep st (record st { body = set_field st.body (codes "steps") (arr steps) }) refl h
    step-InStep role st (edit_yaml text) h =
        if-InStep (is_yaml st.view) st _ h (on_yaml-InStep st text)
    step-InStep role st press_save h = elim (Bool-cases (can_save stringify parse same role st)) [
      | inl e ↦ rw e h
      | inr e ↦ rw e h
    ]
    step-InStep role st (save_answered r) h = on_loaded-InStep (record st { save = done }) r h
    step-InStep role st (save_refused e) h = h
    step-InStep role st press_reload h = h
    step-InStep role st (loaded r) h = on_loaded-InStep st r h
    step-InStep role st press_delete h = if-InStep _ st (record st { deleting = true }) h h
    step-InStep role st close_delete h = h
    step-InStep role st confirm_delete h =
        elim (Bool-cases (st.deleting && not (is_pending st.remove))) [
          | inl e ↦ rw e h
          | inr e ↦ rw e h
        ]
    step-InStep role st delete_answered h = h
    step-InStep role st (delete_refused e) h = h

    pub reachable-InStep : (role : Option Str) (st : EditorState) → Reachable role st → InStep st
    unfolding open_editor
    reachable-InStep role st (opened r) = inl refl
    reachable-InStep role st (after s e r) = step-InStep role s e (reachable-InStep role s r)

    -- With a YAML library that reads back what it wrote and explains what it refuses: whatever the
    -- user and the server did since the resource was opened, a save sends the resource as it is
    -- edited, based on the revision of the form, and only for a role that may edit, with a change
    -- to save, no save under way and no error in the YAML text. In the YAML view, the text on the
    -- screen stands for just what is sent.
    pub press_save-send_save :
        (role : Option Str) (st : EditorState) (revision : ℕ) (body : Fields)
        → Reachable role st
        → (editor_step stringify parse same role st press_save).1 ≡ send_save revision body ∷ []
        → (can role editor ≡ true)
          × (revision ≡ st.revision)
          × (body ≡ st.body)
          × (same body st.initial ≡ false)
          × (is_pending st.save ≡ false)
          × ((st.yaml_error === []) ≡ true)
          × ((st.view ≡ form) ⊎ (parsed_body (parse st.yaml_text) ≡ some body))
    unfolding editor_step can_save is_dirty
    press_save-send_save role st revision body r sent =
        elim (Bool-cases (can_save stringify parse same role st)) [
          | inr refused ↦ absurd (cc (rw (editor_step, refused) at sent))
          | inl allowed ↦
              let went : send_save st.revision st.body ∷ [] ≡ send_save revision body ∷ [] =
                rw (editor_step, allowed) at sent in
              let right : (st.yaml_error === []) ≡ true = ground (arith, allowed) in
              let body_eq : st.body ≡ body = cc went in
              (
                ground (arith, allowed),
                cc went,
                sym body_eq,
                subst (λ b. same b st.initial ≡ false) body_eq (ground (arith, allowed)),
                ground (arith, allowed),
                right,
                elim (reachable-InStep role st r) [
                  | inl f ↦ inl f
                  | inr (inl wrong) ↦ absurd (cc (wrong, right))
                  | inr (inr reads) ↦ inr (reads ∙ ap some body_eq)
                ],
              )
        ]
