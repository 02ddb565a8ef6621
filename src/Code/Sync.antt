-- ===== src/Code/Sync.antt =====
-- The document of CodeField and the text of its parent.
use restitch_gateway.Prelude.{
  ◌≡◌, refl, sym, ap, ◌∙◌, Bool, true, false, List, [], ◌∷◌, Str, ◌===◌, ===_refl, ===→eq, inl, inr,
  Bool-cases,
}
use restitch_gateway.Code.{
  Language, Field, FieldEvent, typed, set_value, set_language, set_dark, same_language, on_dark,
  dispatch, sync_value, render_value, settle, mount_field, on_language, field_step, field_run,
}

module _ (lines : Str → Str) where
  -- The document shows the text of the parent, which is one that a document can have.
  abbrev pub IsInSync : Field → Type 0
  IsInSync f = (f.doc ≡ f.value) × (f.rendered ≡ f.value) × (lines f.value ≡ f.value)

  module _ (idempotent : (s : Str) → lines (lines s) ≡ lines s) where
    pub render-quiet : (f : Field) → f.rendered ≡ f.value → render_value lines f ≡ (f, [])
    unfolding render_value
    render-quiet f h = rw (h, ===_refl f.value) refl

    -- A document that has the text of the parent is settled in one render.
    pub render-IsInSync :
        (f : Field) → f.doc ≡ f.value → lines f.value ≡ f.value → IsInSync (render_value lines f).0
    unfolding render_value sync_value
    render-IsInSync f h l = elim (Bool-cases (f.rendered === f.value)) [
      | inl e ↦ rw e (h, ===→eq f.rendered f.value e, l)
      | inr e ↦
          let same : (f.doc === f.value) ≡ true = rw h (===_refl f.value) in
          rw (e, same) (h, refl, l)
    ]

    settle-IsInSync :
        (f : Field) (told : List Str)
        → f.doc ≡ f.value
        → lines f.value ≡ f.value
        → IsInSync (settle lines (f, told)).0
    unfolding settle
    settle-IsInSync f told h l =
        let (d, r, n) = render-IsInSync f h l in
        rw (render-quiet (render_value lines f).0 r) (d, r, n)

    -- A text of the parent other than the document's makes one change of the document.
    render-changed :
        (f : Field)
        → (f.rendered === f.value) ≡ false
        → (f.doc === f.value) ≡ false
        → render_value lines f ≡ dispatch lines f.value (record f { rendered = f.value })
    unfolding render_value sync_value
    render-changed f new other = rw (new, other) refl

    settle-changed :
        (f : Field) (told : List Str)
        → (f.rendered === f.value) ≡ false
        → (f.doc === f.value) ≡ false
        → IsInSync (settle lines (f, told)).0
    unfolding settle dispatch
    settle-changed f told new other =
        rw (render-changed f new other) (render-IsInSync _ refl (idempotent f.value))

    set_value-IsInSync :
        (text : Str) (f : Field) → IsInSync f → IsInSync (field_step lines (set_value text) f).0
    unfolding field_step
    set_value-IsInSync text f (d, r, l) = elim (Bool-cases (f.doc === text)) [
      | inl same ↦
          let e : f.doc ≡ text = ===→eq f.doc text same in
          settle-IsInSync (record f { value = text }) [] e (ap lines (sym e ∙ d) ∙ l ∙ sym d ∙ e)
      | inr other ↦ settle-changed (record f { value = text }) [] (rw (r, ← d) other) other
    ]

    pub on_language-IsInSync :
        (l : Language) (f : Field) → IsInSync f → IsInSync (on_language lines l f)
    unfolding on_language
    on_language-IsInSync l f (d, r, n) = elim (Bool-cases (same_language l f.language)) [
      | inl e ↦ rw e (d, r, n)
      | inr e ↦ rw e (n, r, n)
    ]

    pub on_dark-IsInSync : (b : Bool) (f : Field) → IsInSync f → IsInSync (on_dark b f)
    unfolding on_dark
    on_dark-IsInSync true f h = elim (Bool-cases f.dark) [ inl e ↦ rw e h | inr e ↦ rw e h ]
    on_dark-IsInSync false f h = elim (Bool-cases f.dark) [ inl e ↦ rw e h | inr e ↦ rw e h ]

    pub step-IsInSync :
        (e : FieldEvent) (f : Field) → IsInSync f → IsInSync (field_step lines e f).0
    unfolding field_step dispatch
    step-IsInSync (typed text) f h = settle-IsInSync _ _ refl (idempotent text)
    step-IsInSync (set_value text) f h = set_value-IsInSync text f h
    step-IsInSync (set_language l) f h =
        let (d, r, n) = on_language-IsInSync l f h in settle-IsInSync (on_language lines l f) [] d n
    step-IsInSync (set_dark b) f h =
        let (d, r, n) = on_dark-IsInSync b f h in settle-IsInSync (on_dark b f) [] d n

    pub run-IsInSync :
        (es : List FieldEvent) (f : Field) → IsInSync f → IsInSync (field_run lines es f).0
    unfolding field_run
    run-IsInSync [] f h = h
    run-IsInSync (e ∷ es) f h = run-IsInSync es _ (step-IsInSync e f h)

    pub mount-IsInSync :
        (text : Str) (l : Language) (d : Bool) → IsInSync (mount_field lines text l d).0
    unfolding mount_field sync_value dispatch
    mount-IsInSync text l d = elim (Bool-cases (lines text === text)) [
      | inl e ↦
          rw e (settle-IsInSync _ [] (===→eq (lines text) text e) (===→eq (lines text) text e))
      | inr e ↦ rw e (settle-IsInSync _ _ refl (idempotent text))
    ]

    -- When the text of a document made from the text of a document is that text: after the field was
    -- mounted on any text and after any changes by the user, the parent and the page, its document shows
    -- the text that the parent keeps, that is the text of the last render, and a document can have it.
    pub field_run-IsInSync :
        (text : Str) (l : Language) (d : Bool) (es : List FieldEvent)
        → IsInSync (field_run lines es (mount_field lines text l d).0).0
    field_run-IsInSync text l d es = run-IsInSync es _ (mount-IsInSync text l d)
