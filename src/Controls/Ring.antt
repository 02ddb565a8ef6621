-- ===== src/Controls/Ring.antt =====
-- The arrow keys of the segmented control.
use restitch_gateway.Prelude.{
  ℕ, zero, suc, ◌+◌, ◌%◌, ◌<◌, ◌≡◌, refl, ap, subst, ◌∙◌, true, false, inl, inr, some, List, [],
  ◌∷◌, Str, ◌===◌, ===_iff, Bool-cases, Option-cases, arith, get_elem?, length, All,
}
use native.Mathlib.Nat.{add_assoc, mod-add-mod, add-mod_right, mod-eq_of_lt, mod-lt}
use restitch_gateway.Controls.{
  Segment, index_of_value, Direction, forward, backward, direction_of, place_after, move,
  on_key_down, value_or, press,
}

-- The values of the options differ.
abbrev pub AreDistinct : List Segment → Type 0
AreDistinct [] = Unit
AreDistinct (o ∷ options) = All (λ p. (o.value === p.value) ≡ false) options × AreDistinct options

abbrev pub opposite : Direction → Direction
opposite forward = backward
opposite backward = forward

place_back :
    (n i : ℕ) (d : Direction)
    → i < suc n
    → (j : ℕ) × (place_after (some i) d (suc n) ≡ some j)
      × (j < suc n)
      × (place_after (some j) (opposite d) (suc n) ≡ some i)
place_back n i forward h =
    let whole : i + 1 + suc n + n ≡ i + suc n + suc n = omega arith in
    (
      (i + 1 + suc n) % suc n,
      refl,
      mod-lt _ (omega arith),
      ap some (
          mod-add-mod (i + 1 + suc n) (suc n) n
          ∙ ap (λ (x : ℕ). x % suc n) whole
          ∙ add-mod_right (i + suc n) (suc n)
          ∙ add-mod_right i (suc n)
          ∙ mod-eq_of_lt h),
    )
place_back n i backward h =
    let whole : i + n + (1 + suc n) ≡ i + suc n + suc n = omega arith in
    (
      (i + n) % suc n,
      refl,
      mod-lt _ (omega arith),
      ap some (
          ap (λ (x : ℕ). x % suc n) (add_assoc ((i + n) % suc n) 1 (suc n))
          ∙ mod-add-mod (i + n) (suc n) (1 + suc n)
          ∙ ap (λ (x : ℕ). x % suc n) whole
          ∙ add-mod_right (i + suc n) (suc n)
          ∙ add-mod_right i (suc n)
          ∙ mod-eq_of_lt h),
    )

index_below :
    (options : List Segment) (value : Str) (i : ℕ)
    → index_of_value options value ≡ some i
    → i < length options
unfolding index_of_value
index_below [] value i h = cc
index_below (o ∷ options) value i h = elim (Bool-cases (o.value === value)) [
  | inl e ↦ ground (arith, h, e)
  | inr e ↦ elim (Option-cases (index_of_value options value)) [
    | inl none_left ↦ absurd (ground (arith, h, e, none_left))
    | inr (j, e') ↦ ground (arith, h, e, e', index_below options value j e')
  ]
]

-- An option with the value stands at the place.
abbrev At : List Segment → Str → ℕ → Type 0
At options value i = (o : Segment) × (get_elem? options i ≡ some o) × (o.value ≡ value)

index_value :
    (options : List Segment) (value : Str) (i : ℕ)
    → index_of_value options value ≡ some i
    → At options value i
unfolding index_of_value
index_value [] value i h = cc
index_value (o ∷ options) value i h = elim (Bool-cases (o.value === value)) [
  | inl e ↦
      let first : 0 ≡ i = ground (arith, h, e) in
      subst (At (o ∷ options) value) first (o, refl, (===_iff o.value value).0 e)
  | inr e ↦ elim (Option-cases (index_of_value options value)) [
    | inl none_left ↦ absurd (ground (arith, h, e, none_left))
    | inr (j, e') ↦
        let later : suc j ≡ i = ground (arith, h, e, e') in
        subst (At (o ∷ options) value) later (index_value options value j e')
  ]
]

elem_below :
    (options : List Segment) (i : ℕ)
    → i < length options
    → (o : Segment) × (get_elem? options i ≡ some o)
elem_below [] i h = absurd (omega arith)
elem_below (o ∷ options) zero h = (o, refl)
elem_below (o ∷ options) (suc i) h = elem_below options i (omega arith)

elem-All {ℓ κ} :
    {A : Type ℓ} (P : A → Type κ) (xs : List A) (i : ℕ) (x : A)
    → All P xs
    → get_elem? xs i ≡ some x
    → P x
elem-All P [] i x hs h = absurd (ground (arith, h))
elem-All P (y ∷ xs) zero x (h, hs) e = subst P (ground (arith, e)) h
elem-All P (y ∷ xs) (suc i) x (h, hs) e = elem-All P xs i x hs e

index_of_elem :
    (options : List Segment) (i : ℕ) (o : Segment)
    → AreDistinct options
    → get_elem? options i ≡ some o
    → index_of_value options o.value ≡ some i
unfolding index_of_value
index_of_elem [] i o d h = cc
index_of_elem (p ∷ options) zero o d h =
    let same : (p.value === o.value) ≡ true = (===_iff _ _).1 (ground (arith, h)) in rw same refl
index_of_elem (p ∷ options) (suc i) o (d, ds) h =
    rw
      (
        elem-All (λ q. (p.value === q.value) ≡ false) options i o d h,
        index_of_elem options i o ds h,
      )
      refl

moved_value :
    (options : List Segment) (value : Str) (i j n : ℕ) (d : Direction) (o : Segment)
    → length options ≡ suc n
    → index_of_value options value ≡ some i
    → place_after (some i) d (suc n) ≡ some j
    → get_elem? options j ≡ some o
    → value_or value (move options value (some d)) ≡ o.value
moved_value options value i j n d o size here there at_j = rw (here, size, there, at_j) refl

move_back :
    (options : List Segment) (value : Str) (i n : ℕ) (d : Direction)
    → AreDistinct options
    → length options ≡ suc n
    → index_of_value options value ≡ some i
    → value_or
        (value_or value (move options value (some d)))
        (move options (value_or value (move options value (some d))) (some (opposite d)))
      ≡ value
move_back options value i n d distinct size here =
    let (j, there, below, back) =
      place_back n i d (omega (arith, index_below options value i here, size)) in
    let (o, at_j) = elem_below options j (omega (arith, below, size)) in
    let (p, at_i, same) = index_value options value i here in
    rw (moved_value options value i j n d o size here there at_j) (
      moved_value options o.value j i n (opposite d) p size
        (index_of_elem options j o distinct at_j) back at_i
      ∙ same)

nonempty :
    (options : List Segment) (i : ℕ) → i < length options → (n : ℕ) × (length options ≡ suc n)
nonempty [] i h = absurd (omega arith)
nonempty (o ∷ options) i h = (length options, refl)

-- A key of the control undoes the opposite key: if the values of the options differ and the current value
-- is among them, then moving on and back, or back and on, around the ends too, gives the value again.
pub press_back :
    (options : List Segment) (value there back : Str) (i : ℕ) (d : Direction)
    → AreDistinct options
    → index_of_value options value ≡ some i
    → direction_of there ≡ some d
    → direction_of back ≡ some (opposite d)
    → press options back (press options there value) ≡ value
unfolding press on_key_down
press_back options value there back i d distinct here e e' =
    let (n, size) = nonempty options i (index_below options value i here) in
    rw (e, e') (move_back options value i n d distinct size here)
