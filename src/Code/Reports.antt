-- ===== src/Code/Reports.antt =====
-- What CodeField tells its parent, and the YAML text of ResourceEditor.tsx as the parent.
use restitch_gateway.Prelude.{
  ◌≡◌, refl, ap₂, ◌∙◌, Bool, true, false, List, [], ◌∷◌, ◌++◌, every, Str, ◌===◌, ===_refl, ===→eq,
  if◌then◌else◌, inl, inr, Bool-cases, arith,
}
use mathlib.Core.List.{append-nil}
use restitch_gateway.Code.{
  Language, Field, FieldEvent, typed, set_value, set_language, set_dark, on_dark, dispatch,
  sync_value, render_value, settle, mount_field, on_language, field_step, field_run,
}
use restitch_gateway.Code.Sync.{
  IsInSync, render-quiet, render-IsInSync, on_language-IsInSync, on_dark-IsInSync, step-IsInSync,
  mount-IsInSync,
}

-- A change that is not the parent's own: by the user or the page.
abbrev pub is_outside : FieldEvent → Bool
is_outside (set_value text) = false
is_outside _ = true

module _ (lines : Str → Str) where
  -- The text of the document after an edit of the user.
  abbrev pub edit_of : FieldEvent → List Str
  edit_of (typed text) = lines text ∷ []
  edit_of _ = []

  unfoldable pub edits_of : List FieldEvent → List Str
  edits_of [] = []
  edits_of (e ∷ es) = edit_of e ++ edits_of es

  module _ (idempotent : (s : Str) → lines (lines s) ≡ lines s) where
    render-synced : (f : Field) → f.doc ≡ f.value → (render_value lines f).1 ≡ []
    unfolding render_value sync_value
    render-synced f h = elim (Bool-cases (f.rendered === f.value)) [
      | inl e ↦ rw e refl
      | inr e ↦ let same : (f.doc === f.value) ≡ true = rw h (===_refl f.value) in rw (e, same) refl
    ]

    -- Nothing more is told when the document has the text of the parent.
    settle-synced :
        (f : Field) (told : List Str)
        → f.doc ≡ f.value
        → lines f.value ≡ f.value
        → (settle lines (f, told)).1 ≡ told
    unfolding settle
    settle-synced f told h l =
        let (d, r, n) = render-IsInSync lines idempotent f h l in
        rw (render-synced f h, render-quiet lines idempotent (render_value lines f).0 r)
          (append-nil (told ++ []) ∙ append-nil told)

    pub step-told :
        (e : FieldEvent) (f : Field)
        → is_outside e ≡ true
        → IsInSync lines f
        → (field_step lines e f).1 ≡ edit_of e
    unfolding field_step dispatch
    step-told (typed text) f o h = settle-synced _ _ refl (idempotent text)
    step-told (set_value text) f o h = cc
    step-told (set_language l) f o h =
        let (d, r, n) = on_language-IsInSync lines idempotent l f h in
        settle-synced (on_language lines l f) [] d n
    step-told (set_dark b) f o h =
        let (d, r, n) = on_dark-IsInSync lines idempotent b f h in
        settle-synced (on_dark b f) [] d n

    run-told :
        (es : List FieldEvent) (f : Field)
        → every is_outside es ≡ true
        → IsInSync lines f
        → (field_run lines es f).1 ≡ edits_of es
    unfolding field_run edits_of
    run-told [] f o h = refl
    run-told (e ∷ es) f o h = rw (step-told e f (ground (arith, o)) h) (
        rw
          (run-told es (field_step lines e f).0 (ground (arith, o))
            (step-IsInSync lines idempotent e f h))
          refl)

    told-first :
        (text : Str) (l : Language) (d : Bool)
        → (mount_field lines text l d).1 ≡ (if lines text === text then [] else lines text ∷ [])
    unfolding mount_field sync_value dispatch
    told-first text l d = elim (Bool-cases (lines text === text)) [
      | inl e ↦
          let same : lines text ≡ text = ===→eq (lines text) text e in
          rw e (settle-synced _ [] same same)
      | inr e ↦ rw e (settle-synced _ (lines text ∷ []) refl (idempotent text))
    ]

    -- When the text of a document made from the text of a document is that text: the texts that the
    -- field gives to its parent are those of the user's edits in their order, once each, after the text
    -- that the document made of the first one, if the two differ. This holds as long as the parent does
    -- not set a text of its own.
    pub field_run-edits_of :
        (text : Str) (l : Language) (d : Bool) (es : List FieldEvent)
        → every is_outside es ≡ true
        → ((mount_field lines text l d).1 ++ (field_run lines es (mount_field lines text l d).0).1
            ≡ (if lines text === text then [] else lines text ∷ []) ++ edits_of es)
    field_run-edits_of text l d es o =
        ap₂ (λ a b. a ++ b) (told-first text l d)
          (run-told es _ o (mount-IsInSync lines idempotent text l d))
