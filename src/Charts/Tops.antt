-- ===== src/Charts/Tops.antt =====
-- The top of each stack of a chart: topKeys of charts-impl.tsx.
use restitch_gateway.Prelude.{
  ℕ, zero, suc, ◌≡◌, refl, ap, subst, ◌∙◌, true, false, inl, inr, Option, none, some, List, [], ◌∷◌,
  ◌++◌, arith, Bool-cases, Option-cases, length, get_elem?, take, All, All-append, Str,
}
use mathlib.Core.List.{append_assoc}
use restitch_gateway.Charts.{ChartRow, Series, is_filled, top_from, top_keys}

take-some {ℓ} :
    {A : Type ℓ} (xs : List A) (i : ℕ) (x : A)
    → get_elem? xs i ≡ some x
    → take (suc i) xs ≡ take i xs ++ x ∷ []
take-some [] i x h = cc
take-some (y ∷ xs) zero x h = ground (arith, h)
take-some (y ∷ xs) (suc i) x h = ap (λ r. y ∷ r) (take-some xs i x h)

take-none {ℓ} :
    {A : Type ℓ} (xs : List A) (i : ℕ) → get_elem? xs i ≡ none → take (suc i) xs ≡ take i xs
take-none [] zero h = refl
take-none [] (suc i) h = refl
take-none (y ∷ xs) zero h = cc
take-none (y ∷ xs) (suc i) h = ap (λ r. y ∷ r) (take-none xs i h)

take-all {ℓ} : {A : Type ℓ} (xs : List A) → take (length xs) xs ≡ xs
take-all [] = refl
take-all (x ∷ xs) = ap (λ r. x ∷ r) (take-all xs)

-- What the answer for a row means: no series has a value above zero, or the key is that of a series with
-- such a value behind which there is none.
abbrev pub IsTop : ChartRow → List Series → Option Str → Type 0
IsTop r series none = All (λ s. is_filled r s ≡ false) series
IsTop r series (some key) =
    (below : List Series) × (s : Series) × (above : List Series) × (series ≡ below ++ (s ∷ above))
    × (s.key ≡ key)
    × (is_filled r s ≡ true)
    × All (λ t. is_filled r t ≡ false) above

more-IsTop :
    (r : ChartRow) (series : List Series) (t : Series) (key : Option Str)
    → is_filled r t ≡ false
    → IsTop r series key
    → IsTop r (series ++ t ∷ []) key
more-IsTop r series t none h top = All-append _ series (t ∷ []) top (h, tt)
more-IsTop r series t (some key) h (below, s, above, e, same, full, bare) = (
  below,
  s,
  above ++ t ∷ [],
  ap (λ l. l ++ t ∷ []) e ∙ append_assoc below (s ∷ above) (t ∷ []),
  same,
  full,
  All-append _ above (t ∷ []) bare (h, tt),
)

top_from-IsTop :
    (r : ChartRow) (series : List Series) (i : ℕ) → IsTop r (take i series) (top_from r series i)
unfolding top_from
top_from-IsTop r series zero = tt
top_from-IsTop r series (suc i) = elim (Option-cases (get_elem? series i)) [
  | inl e ↦ rw (top_from, e) (rw (take-none series i e) (top_from-IsTop r series i))
  | inr (s, e) ↦
      rw (top_from, e)
        (rw (take-some series i s e) (elim (Bool-cases (is_filled r s)) [
          | inl full ↦ rw full (take i series, s, [], refl, refl, full, tt)
          | inr bare ↦ rw bare (
              more-IsTop r (take i series) s (top_from r series i) bare (top_from-IsTop r series i))
        ]))
]

-- One answer for each row.
abbrev pub AreTops : List Series → List ChartRow → List (Option Str) → Type 0
AreTops series [] [] = Unit
AreTops series (r ∷ rows) (key ∷ keys) = IsTop r series key × AreTops series rows keys
AreTops series [] (key ∷ keys) = ⊥
AreTops series (r ∷ rows) [] = ⊥

-- For each row in turn, the key of the top segment is that of the last series with a value above zero,
-- and there is no key exactly if no series has such a value.
pub top_keys-AreTops :
    (rows : List ChartRow) (series : List Series) → AreTops series rows (top_keys rows series)
unfolding top_keys
top_keys-AreTops [] series = tt
top_keys-AreTops (r ∷ rows) series = (
  subst (λ l. IsTop r l (top_from r series (length series))) (take-all series)
      (top_from-IsTop r series (length series)),
  top_keys-AreTops rows series,
)
