-- ===== src/Secrets/Panel.antt =====
-- studio/src/features/resources/secret-picker.tsx: what SecretPicker shows.
use restitch_gateway.Prelude.{
  ℕ, ◌≡◌, refl, ◌∙◌, subst, Bool, true, false, not, ◌&&◌, ◌||◌, Option, none, some, List, [], ◌∷◌,
  ◌++◌, arith, Str, codes, ◌===◌, ◌==◌, All, All-append, All-imp, ◌⊎◌, ===_refl, Bool-cases,
  if◌then◌else◌, length, includes, includes-append, includes-filter, inl, inr,
}
use restitch_gateway.Text.{trim, contains, index_of, index_from, starts_with}
use mathlib.Core.List.{append-nil}
use restitch_gateway.Secrets.Picks.{IsUsable, filter-includes}
use restitch_gateway.Secrets.{
  is_var_name, PickerState, PickerOutcome, pick, shown, is_new, pick_first, on_enter, on_key,
}

-- Below the list: nothing, a button that inserts the new name, or what a name must be like.
pub data NewName : Type 0 where
  nothing_new : NewName
  insert_new : Str → NewName
  syntax_alert : NewName

pub record Panel : Type 0 where
  -- The names of the buttons of the list; without one there is no list.
  pub listed : List Str
  pub new_name : NewName
  pub no_names_yet : Bool

module _ (lower : Str → Str) (names : List Str) where
  unfoldable pub new_name_of : PickerState → NewName
  new_name_of st =
      if is_new lower names st
      then if is_var_name (trim st.query) then insert_new (trim st.query) else syntax_alert
      else nothing_new

  abbrev pub panel_of : PickerState → Panel
  panel_of st = record {
    listed = shown lower names st;
    new_name = new_name_of st;
    no_names_yet = length names == 0 && trim st.query === [];
  }

  unfoldable pub picker_panel : PickerState → Option Panel
  picker_panel st = if st.is_open then some (panel_of st) else none

abbrev new_button : NewName → List Str
new_button (insert_new n) = n ∷ []
new_button _ = []

-- The names that a press on a button inserts.
abbrev pub buttons : Panel → List Str
buttons p = p.listed ++ new_button p.new_name

starts_with_self : (s : Str) → starts_with s s ≡ true
unfolding starts_with
starts_with_self [] = refl
starts_with_self (c ∷ s) = ground (arith, starts_with_self s)

index_from_self : (i : ℕ) (s : Str) → index_from i s s ≡ some i
unfolding index_from starts_with
index_from_self i [] = refl
index_from_self i (c ∷ s) = rw (starts_with_self (c ∷ s)) refl

contains_self : (s : Str) → contains s s ≡ true
unfolding contains index_of
contains_self s = rw (contains, index_from_self 0 s) refl

module _ (lower : Str → Str) (names : List Str) where
  -- A known name that was typed is among the names of the list.
  shown-known :
      (st : PickerState)
      → includes names (trim st.query) ≡ true
      → includes (shown lower names st) (trim st.query) ≡ true
  unfolding shown
  shown-known st h =
      includes-filter (λ n. contains (lower n) (lower (trim st.query))) names (trim st.query)
      ∙ ground (arith, h, contains_self (lower (trim st.query)))

  -- Nothing is inserted and there is no button, or the name of one of the buttons is inserted.
  abbrev pub PressesOne : List Str → PickerOutcome → Type 0
  PressesOne bs o =
      (o.picked ≡ none) × (bs ≡ []) ⊎ ((n : Str) × (o.picked ≡ some n) × (includes bs n ≡ true))

  pick_first-PressesOne :
      (st : PickerState) (ns : List Str) → PressesOne (ns ++ []) (pick_first lower names st ns)
  unfolding pick
  pick_first-PressesOne st [] = inl (refl, refl)
  pick_first-PressesOne st (n ∷ ns) = inr (n, refl, ground (arith, ===_refl n))

  no_button :
      (st : PickerState)
      → (is_new lower names st && is_var_name (trim st.query)) ≡ false
      → new_button (new_name_of lower names st) ≡ []
  unfolding new_name_of
  no_button st h = elim (Bool-cases (is_new lower names st)) [
    | inl e ↦
        let bad : is_var_name (trim st.query) ≡ false = ground (arith, h, e) in rw (e, bad) refl
    | inr e ↦ rw e refl
  ]

  fresh_button :
      (st : PickerState)
      → (is_new lower names st && is_var_name (trim st.query)) ≡ true
      → (includes (shown lower names st) (trim st.query)
          || includes (new_button (new_name_of lower names st)) (trim st.query))
        ≡ true
  unfolding new_name_of
  fresh_button st h =
      let new : is_new lower names st ≡ true = ground (arith, h) in
      let good : is_var_name (trim st.query) ≡ true = ground (arith, h) in
      rw (new, good, ===_refl (trim st.query)) (ground arith)

  on_enter-PressesOne :
      (st : PickerState) → PressesOne (buttons (panel_of lower names st)) (on_enter lower names st)
  unfolding on_enter pick
  on_enter-PressesOne st =
      let q = trim st.query in
      elim (Bool-cases (not (q === []) && includes names q)) [
        | inl known ↦ rw known (
            inr (
              q,
              refl,
              includes-append (shown lower names st) (new_button (new_name_of lower names st)) q
                  ∙ ground (arith, shown-known st (ground (arith, known))),
            ))
        | inr unknown ↦ elim (Bool-cases (is_new lower names st && is_var_name q)) [
          | inl fresh ↦
              rw (unknown, fresh)
                (inr (
                  q,
                  refl,
                  includes-append (shown lower names st) (new_button (new_name_of lower names st)) q
                      ∙ fresh_button st fresh,
                ))
          | inr other ↦
              rw (unknown, other, no_button st other)
                (pick_first-PressesOne st (shown lower names st))
        ]
      ]

  buttons-IsUsable : (st : PickerState) → All (IsUsable names) (buttons (panel_of lower names st))
  unfolding shown new_name_of
  buttons-IsUsable st =
      let known : All (IsUsable names) (shown lower names st) =
        All-imp (λ n. includes names n ≡ true) (IsUsable names) (λ n h. inl h)
          (shown lower names st)
          (filter-includes (λ n. contains (lower n) (lower (trim st.query))) names) in
      elim (Bool-cases (is_new lower names st && is_var_name (trim st.query))) [
        | inr other ↦ rw (no_button st other, append-nil) known
        | inl fresh ↦
            let new : is_new lower names st ≡ true = ground (arith, fresh) in
            let good : is_var_name (trim st.query) ≡ true = ground (arith, fresh) in
            rw (new, good)
              (All-append (IsUsable names) (shown lower names st) (trim st.query ∷ []) known
                (inr good, tt))
      ]

  open_panel : (b : Bool) (x p : Panel) → (if b then some x else none) ≡ some p → x ≡ p
  open_panel true x p h = cc h
  open_panel false x p h = absurd (cc h)

  -- While the picker is open, each of its buttons inserts a name that the environment uses or one in
  -- the syntax of a variable name. Enter inserts the name of one of the buttons, or it inserts nothing
  -- and there is no button.
  pub picker_panel-on_key :
      (st : PickerState) (p : Panel)
      → picker_panel lower names st ≡ some p
      → All (IsUsable names) (buttons p)
        × PressesOne (buttons p) (on_key lower names (codes "Enter") st)
  unfolding picker_panel on_key ◌===◌
  picker_panel-on_key st p h =
      subst
        (λ p.
          All (IsUsable names) (buttons p)
          × PressesOne (buttons p) (on_key lower names (codes "Enter") st))
        (open_panel st.is_open (panel_of lower names st) p h)
        (buttons-IsUsable st, on_enter-PressesOne st)
