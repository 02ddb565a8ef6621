-- ===== src/Editor/Steps.antt =====
-- What a save and a deletion are based on: nothing is sent against a revision that the form has not been
-- given.
use restitch_gateway.Prelude.{
  ◌≡◌, refl, Bool, true, false, not, ◌&&◌, Option, List, [], ◌∷◌, arith, All, if◌then◌else◌, ltb,
  inl, inr, Bool-cases, Str, ◌===◌, ◌==◌,
}
use restitch_gateway.Access.{editor, can}
use restitch_gateway.Values.{Value, undefined, null, bool, num, str, arr, obj, Fields}
use restitch_gateway.Editor.{
  done, View, form, yaml, ParsedYaml, parsed, thrown, EditorState, Saved, Event, choose_view,
  edit_body, edit_steps, edit_yaml, press_save, save_answered, save_refused, press_reload, loaded,
  press_delete, close_delete, confirm_delete, delete_answered, delete_refused, Effect, send_save,
  send_delete, is_yaml, yaml_body, yaml_parsed, on_yaml, on_view, is_stale, is_pending, is_dirty,
  can_save, open_editor, on_loaded, editor_step,
}

module _ (stringify : Fields → Str) (parse : Str → ParsedYaml) (same : Fields → Fields → Bool) where
  -- The resource that the editor was given last: by its opening, a load, or the answer to a save.
  abbrev pub latest : Saved → Event → Saved
  latest r (save_answered s) = s
  latest r (loaded s) = s
  latest r _ = r

  -- A save carries the revision of the resource and another body, and a deletion its revision.
  abbrev pub IsBasedOn : Saved → Effect → Type 0
  IsBasedOn r (send_save revision body) =
      (revision ≡ r.saved_revision) × (same body r.saved_body ≡ false)
  IsBasedOn r (send_delete revision) = revision ≡ r.saved_revision
  IsBasedOn r _ = Unit

  -- What each step of a run sends is based on the resource that the editor was given last before it.
  unfoldable pub AreBasedOn : Option Str → List Event → EditorState → Saved → Type 0
  AreBasedOn role [] st r = Unit
  AreBasedOn role (e ∷ es) st r =
      All (IsBasedOn r) (editor_step stringify parse same role st e).1
      × AreBasedOn role es (editor_step stringify parse same role st e).0 (latest r e)

  abbrev IsOn : Saved → EditorState → Type 0
  IsOn r st = (st.revision ≡ r.saved_revision) × (st.initial ≡ r.saved_body)

  on_loaded-IsOn : (st : EditorState) (r : Saved) → IsOn r (on_loaded stringify parse same st r)
  unfolding on_loaded open_editor
  on_loaded-IsOn st r = elim (Bool-cases (r.saved_revision == st.revision)) [
    | inl e ↦ rw e (ground (arith, e), refl)
    | inr e ↦ rw e (refl, refl)
  ]

  yaml_body-IsOn :
      (r : Saved) (st : EditorState) (text : Str) (v : Value)
      → IsOn r st
      → IsOn r (yaml_body stringify parse same st text v)
  yaml_body-IsOn r st text (obj o) h = h
  yaml_body-IsOn r st text undefined h = h
  yaml_body-IsOn r st text null h = h
  yaml_body-IsOn r st text (bool b) h = h
  yaml_body-IsOn r st text (num n) h = h
  yaml_body-IsOn r st text (str s) h = h
  yaml_body-IsOn r st text (arr vs) h = h

  yaml_parsed-IsOn :
      (r : Saved) (st : EditorState) (text : Str) (p : ParsedYaml)
      → IsOn r st
      → IsOn r (yaml_parsed stringify parse same st text p)
  yaml_parsed-IsOn r st text (parsed v) h = yaml_body-IsOn r st text v h
  yaml_parsed-IsOn r st text (thrown message) h = h

  on_yaml-IsOn :
      (r : Saved) (st : EditorState) (text : Str)
      → IsOn r st
      → IsOn r (on_yaml stringify parse same st text)
  unfolding on_yaml
  on_yaml-IsOn r st text h = yaml_parsed-IsOn r st text (parse text) h

  if-IsOn :
      (r : Saved) (b : Bool) (st st' : EditorState)
      → IsOn r st
      → IsOn r st'
      → IsOn r (if b then st else st')
  if-IsOn r true st st' h h' = h
  if-IsOn r false st st' h h' = h'

  on_view-IsOn :
      (r : Saved) (st : EditorState) (v : View)
      → IsOn r st
      → IsOn r (on_view stringify parse same st v)
  unfolding on_view
  on_view-IsOn r st form h = h
  on_view-IsOn r st yaml h = if-IsOn r (is_yaml st.view) st _ h (
      if-IsOn r (st.yaml_text === stringify st.body) _ _ h (on_yaml-IsOn r _ (stringify st.body) h))

  step-IsOn :
      (role : Option Str) (r : Saved) (st : EditorState) (e : Event)
      → IsOn r st
      → IsOn (latest r e) (editor_step stringify parse same role st e).0
  unfolding editor_step
  step-IsOn role r st (choose_view v) h = on_view-IsOn r st v h
  step-IsOn role r st (edit_body o) h = if-IsOn r (is_yaml st.view) _ _ h h
  step-IsOn role r st (edit_steps steps) h = if-IsOn r (is_yaml st.view) _ _ h h
  step-IsOn role r st (edit_yaml text) h =
      if-IsOn r (is_yaml st.view) _ st (on_yaml-IsOn r st text h) h
  step-IsOn role r st press_save h = elim (Bool-cases (can_save stringify parse same role st)) [
    | inl e ↦ rw e h
    | inr e ↦ rw e h
  ]
  step-IsOn role r st (save_answered s) h = on_loaded-IsOn (record st { save = done }) s
  step-IsOn role r st (save_refused e) h = h
  step-IsOn role r st press_reload h = h
  step-IsOn role r st (loaded s) h = on_loaded-IsOn st s
  step-IsOn role r st press_delete h = if-IsOn r (can role editor && ltb 0 st.revision) _ _ h h
  step-IsOn role r st close_delete h = h
  step-IsOn role r st confirm_delete h =
      elim (Bool-cases (st.deleting && not (is_pending st.remove))) [
        | inl e ↦ rw e h
        | inr e ↦ rw e h
      ]
  step-IsOn role r st delete_answered h = h
  step-IsOn role r st (delete_refused e) h = h

  sent-IsBasedOn :
      (role : Option Str) (r : Saved) (st : EditorState) (e : Event)
      → IsOn r st
      → All (IsBasedOn r) (editor_step stringify parse same role st e).1
  unfolding editor_step can_save is_dirty
  sent-IsBasedOn role r st (choose_view v) h = tt
  sent-IsBasedOn role r st (edit_body o) h = tt
  sent-IsBasedOn role r st (edit_steps steps) h = tt
  sent-IsBasedOn role r st (edit_yaml text) h = tt
  sent-IsBasedOn role r st press_save (rev, body) =
      elim (Bool-cases (can_save stringify parse same role st)) [
        | inl e ↦
            let other : same st.body st.initial ≡ false = ground (arith, e) in
            rw (editor_step, e) ((rev, rw (← body) other), tt)
        | inr e ↦ rw (editor_step, e) tt
      ]
  sent-IsBasedOn role r st (save_answered s) h = (tt, tt)
  sent-IsBasedOn role r st (save_refused e) h = tt
  sent-IsBasedOn role r st press_reload h = elim (Bool-cases (is_stale st.save)) [
    | inl e ↦ rw e (tt, tt)
    | inr e ↦ rw e tt
  ]
  sent-IsBasedOn role r st (loaded s) h = tt
  sent-IsBasedOn role r st press_delete h = tt
  sent-IsBasedOn role r st close_delete h = tt
  sent-IsBasedOn role r st confirm_delete (rev, body) =
      elim (Bool-cases (st.deleting && not (is_pending st.remove))) [
        | inl e ↦ rw e (rev, tt)
        | inr e ↦ rw e tt
      ]
  sent-IsBasedOn role r st delete_answered h = (tt, (tt, tt))
  sent-IsBasedOn role r st (delete_refused e) h = tt

  run-AreBasedOn :
      (role : Option Str) (es : List Event) (st : EditorState) (r : Saved)
      → IsOn r st
      → AreBasedOn role es st r
  unfolding AreBasedOn
  run-AreBasedOn role [] st r h = tt
  run-AreBasedOn role (e ∷ es) st r h = (
    sent-IsBasedOn role r st e h,
    run-AreBasedOn role es (editor_step stringify parse same role st e).0 (latest r e)
        (step-IsOn role r st e h),
  )

  -- Whatever the user and the server do after a resource was opened, conflicts, reloads and saves by
  -- others included: each save carries the revision of the resource that the editor was given last
  -- before it and a body that is not that one's, and each deletion carries that revision.
  pub editor_step-AreBasedOn :
      (role : Option Str) (r : Saved) (es : List Event)
      → AreBasedOn role es (open_editor stringify parse same r) r
  unfolding open_editor
  editor_step-AreBasedOn role r es = run-AreBasedOn role es _ r (refl, refl)
