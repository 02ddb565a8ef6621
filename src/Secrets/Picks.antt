-- ===== src/Secrets/Picks.antt =====
-- What the picker inserts, and where.
use restitch_gateway.Prelude.{
  ℕ, zero, suc, ◌+◌, ◌≤◌, ◌≡◌, refl, ap, sym, ◌∙◌, subst, Bool, true, not, ◌&&◌, ◌⊎◌, inl, inr,
  none, some, List, [], ◌∷◌, ◌++◌, arith, Str, codes, ◌===◌, ===_iff, Bool-cases, length, take,
  drop, filter, includes, length-append, All, All-filter,
}
use mathlib.Core.Option.{some-injective}
use mathlib.Core.List.{append_assoc}
use restitch_gateway.Text.{trim, contains}
use restitch_gateway.Secrets.{
  is_var_name, reference, insert_reference, PickerState, PickerOutcome, closed, pick, shown, is_new,
  pick_first, on_enter, on_key,
}

module _ {ℓ} {A : Type ℓ} where
  take-append : (n : ℕ) (xs ys : List A) → length xs ≡ n → take n (xs ++ ys) ≡ xs
  take-append zero [] [] h = refl
  take-append zero [] (y ∷ ys) h = refl
  take-append zero (x ∷ xs) ys h = absurd (omega (arith, h))
  take-append (suc n) [] ys h = absurd (omega (arith, h))
  take-append (suc n) (x ∷ xs) ys h = ap (λ l. x ∷ l) (take-append n xs ys (omega (arith, h)))

  drop-append : (n : ℕ) (xs ys : List A) → length xs ≡ n → drop n (xs ++ ys) ≡ ys
  drop-append zero [] ys h = refl
  drop-append zero (x ∷ xs) ys h = absurd (omega (arith, h))
  drop-append (suc n) [] ys h = absurd (omega (arith, h))
  drop-append (suc n) (x ∷ xs) ys h = drop-append n xs ys (omega (arith, h))

  length-take : (n : ℕ) (xs : List A) → n ≤ length xs → length (take n xs) ≡ n
  length-take zero xs h = refl
  length-take (suc n) [] h = absurd (omega (arith, h))
  length-take (suc n) (x ∷ xs) h = omega (arith, length-take n xs (omega (arith, h)))

-- When the selection begins within the text, the reference replaces just the selection: the text
-- before it and the text after it stay, and the caret stands right behind the reference.
pub insert_reference_lem :
    (text : Str) (start finish : ℕ) (name : Str)
    → start ≤ length text
    → (take start (insert_reference text start finish name).text ≡ take start text)
      × (drop start (insert_reference text start finish name).text
          ≡ reference name ++ drop finish text)
      × (drop
            (insert_reference text start finish name).caret
            (insert_reference text start finish name).text
          ≡ drop finish text)
unfolding insert_reference
insert_reference_lem text start finish name h =
    let before = length-take start text h in
    (
      take-append start (take start text) (reference name ++ drop finish text) before,
      drop-append start (take start text) (reference name ++ drop finish text) before,
      ap (drop (start + length (reference name)))
            (sym (append_assoc (take start text) (reference name) (drop finish text)))
          ∙ drop-append (start + length (reference name)) (take start text ++ reference name)
              (drop finish text)
              (omega (arith, before, length-append (take start text) (reference name))),
    )

-- What Enter may insert.
abbrev pub IsUsable : List Str → Str → Type 0
IsUsable names n = (includes names n ≡ true) ⊎ (is_var_name n ≡ true)

includes_self : (xs : List Str) (x : Str) → includes (x ∷ xs) x ≡ true
includes_self xs x = ground (arith, ===_iff x x)

pub filter-includes :
    (p : Str → Bool) (xs : List Str) → All (λ x. includes xs x ≡ true) (filter p xs)
filter-includes p xs = All-filter (λ x. includes xs x ≡ true) p xs (all_in xs xs (λ x h. h))
  where
    all_in :
        (ys zs : List Str)
        → ((x : Str) → includes ys x ≡ true → includes zs x ≡ true)
        → All (λ x. includes zs x ≡ true) ys
    all_in [] zs f = tt
    all_in (y ∷ ys) zs f = (f y (includes_self ys y), all_in ys zs (λ x h. f x (ground (arith, h))))

-- Nothing is inserted, or a usable name, and then the picker is closed.
abbrev InsertsUsable : List Str → PickerOutcome → Type 0
InsertsUsable names o =
    (o.picked ≡ none) ⊎ ((n : Str) × (o.picked ≡ some n) × IsUsable names n × (o.state ≡ closed))

pick_first-InsertsUsable :
    (lower : Str → Str) (names : List Str) (st : PickerState) (ns : List Str)
    → All (λ x. includes names x ≡ true) ns
    → InsertsUsable names (pick_first lower names st ns)
unfolding pick
pick_first-InsertsUsable lower names st [] hs = inl refl
pick_first-InsertsUsable lower names st (x ∷ ns) (h, hs) = inr (x, refl, inl h, refl)

on_enter-InsertsUsable :
    (lower : Str → Str) (names : List Str) (st : PickerState)
    → InsertsUsable names (on_enter lower names st)
unfolding on_enter pick shown
on_enter-InsertsUsable lower names st =
    let q = trim st.query in
    elim (Bool-cases (not (q === []) && includes names q)) [
      | inl known ↦ rw known (inr (q, refl, inl (ground (arith, known)), refl))
      | inr unknown ↦ elim (Bool-cases (is_new lower names st && is_var_name q)) [
        | inl fresh ↦ rw (unknown, fresh) (inr (q, refl, inr (ground (arith, fresh)), refl))
        | inr other ↦
            rw (unknown, other)
              (pick_first-InsertsUsable lower names st _
                (filter-includes (λ n. contains (lower n) (lower q)) names))
      ]
    ]

on_key-InsertsUsable :
    (lower : Str → Str) (names : List Str) (key : Str) (st : PickerState)
    → InsertsUsable names (on_key lower names key st)
unfolding on_key
on_key-InsertsUsable lower names key st = elim (Bool-cases (key === codes "Escape")) [
  | inl esc ↦ rw esc (inl refl)
  | inr not_esc ↦ elim (Bool-cases (key === codes "Enter")) [
    | inl enter ↦ rw (not_esc, enter) (on_enter-InsertsUsable lower names st)
    | inr other ↦ rw (not_esc, other) (inl refl)
  ]
]

-- A key inserts only a name that the environment already uses, or a new one in the syntax of a variable
-- name; the picker is closed when it inserts one.
pub on_key-IsUsable :
    (lower : Str → Str) (names : List Str) (key : Str) (st : PickerState) (n : Str)
    → (on_key lower names key st).picked ≡ some n
    → IsUsable names n × ((on_key lower names key st).state ≡ closed)
on_key-IsUsable lower names key st n e = elim (on_key-InsertsUsable lower names key st) [
  | inl nothing ↦ absurd (cc (e, nothing))
  | inr (m, picked, usable, shut) ↦
      (subst (IsUsable names) (some-injective m n (sym picked ∙ e)) usable, shut)
]
