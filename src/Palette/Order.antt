-- ===== src/Palette/Order.antt =====
-- The stable sort that stands for Array.sort in the palette.
use restitch_gateway.Prelude.{
  ◌≡◌, refl, subst, ap, List-cases, Bool, true, false, List, [], ◌∷◌, if◌then◌else◌, inl, inr,
  Bool-cases, All, All-imp,
}
use restitch_gateway.Palette.{insert, sort}

-- The laws of a comparison with which the order of a sort makes sense.
pub record IsOrder {ℓ} {A : Type ℓ} (late : A → A → Bool) : Type ℓ where
  pub asym : (a b : A) → late a b ≡ true → late b a ≡ false
  pub trans : (a b c : A) → late a b ≡ false → late b c ≡ false → late a c ≡ false

module _ {ℓ κ} {A : Type ℓ} (late : A → A → Bool) (P : A → Type κ) where
  pub All-insert : (x : A) (ys : List A) → P x → All P ys → All P (insert late x ys)
  unfolding insert
  All-insert x [] h hs = (h, tt)
  All-insert x (y ∷ ys) h (hy, hs) = elim (Bool-cases (late x y)) [
    | inl e ↦ rw e (hy, All-insert x ys h hs)
    | inr e ↦ rw e (h, (hy, hs))
  ]

  pub All-sort : (xs : List A) → All P xs → All P (sort late xs)
  unfolding sort
  All-sort [] hs = tt
  All-sort (x ∷ xs) (h, hs) = All-insert x (sort late xs) h (All-sort xs hs)

  pub All-insert_back : (x : A) (ys : List A) → All P (insert late x ys) → P x × All P ys
  unfolding insert
  All-insert_back x [] (h, hs) = (h, tt)
  All-insert_back x (y ∷ ys) hs = elim (Bool-cases (late x y)) [
    | inl e ↦
        let (hy, rest) =
          subst (All P) (ap (λ b. if b then y ∷ insert late x ys else x ∷ y ∷ ys) e) hs in
        let (hx, hys) = All-insert_back x ys rest in (hx, (hy, hys))
    | inr e ↦ subst (All P) (ap (λ b. if b then y ∷ insert late x ys else x ∷ y ∷ ys) e) hs
  ]

  pub All-sort_back : (xs : List A) → All P (sort late xs) → All P xs
  unfolding sort
  All-sort_back [] hs = tt
  All-sort_back (x ∷ xs) hs =
      let (h, rest) = All-insert_back x (sort late xs) hs in (h, All-sort_back xs rest)

module _ {ℓ} {A : Type ℓ} (late : A → A → Bool) (order : IsOrder late) where
  -- The first element comes after no other.
  abbrev pub Leads : List A → Type 0
  Leads [] = Unit
  Leads (h ∷ t) = All (λ y. late h y ≡ false) t

  insert-Leads : (x : A) (ys : List A) → Leads ys → Leads (insert late x ys)
  unfolding insert
  insert-Leads x [] l = tt
  insert-Leads x (y ∷ ys) l = elim (Bool-cases (late x y)) [
    | inl e ↦ rw e (All-insert late (λ z. late y z ≡ false) x ys (order.asym x y e) l)
    | inr e ↦ rw e (e, All-imp _ _ (λ z yz. order.trans x y z e yz) ys l)
  ]

  pub sort-Leads : (xs : List A) → Leads (sort late xs)
  unfolding sort
  sort-Leads [] = tt
  sort-Leads (x ∷ xs) = insert-Leads x (sort late xs) (sort-Leads xs)

  pub sort_first : (x : A) (xs : List A) → (h : A) × (t : List A) × (sort late (x ∷ xs) ≡ h ∷ t)
  unfolding sort insert
  sort_first x xs = elim (List-cases (sort late xs)) [
    | inl e ↦ (x, [], rw e refl)
    | inr (y, ys, e) ↦ elim (Bool-cases (late x y)) [
      | inl l ↦ (y, insert late x ys, rw (e, l) refl)
      | inr l ↦ (x, y ∷ ys, rw (e, l) refl)
    ]
  ]
