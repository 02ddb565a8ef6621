-- ===== src/Charts/Stacks.antt =====
-- studio/src/components/charts/charts-impl.tsx: the pieces of StackedBars and the series of Lines. Places
-- are in half pixels, and a width is given by its half, so that each number of the code is whole.
use restitch_gateway.Prelude.{
  ℕ, ◌+◌, ◌-◌, ◌*◌, ◌≤◌, min, ◌≡◌, subst, Bool, true, false, ◌||◌, Option, none, some, List, [],
  ◌∷◌, map, Str, ◌===◌, ◌==◌, leb, arith, if◌then◌else◌, All, Bool-cases, inl, inr,
}
use restitch_gateway.Charts.{Series, ChartRow, top_keys, needs_dots}

abbrev pub gap_of : Bool → ℕ → ℕ
gap_of top h = if top || leb h 6 then 0 else 3

abbrev pub radius_of : Bool → ℕ → ℕ → ℕ
radius_of top hh half = if top then min 6 (min hh half) else 0

-- The corners of the path, in its order.
abbrev pub corners : ℕ → ℕ → ℕ → ℕ → ℕ → List (ℕ × ℕ)
corners x yy half hh r =
    (x, yy + hh)
    ∷ (x, yy + r)
    ∷ (x, yy)
    ∷ (x + r, yy)
    ∷ (x + 2 * half - r, yy)
    ∷ (x + 2 * half, yy)
    ∷ (x + 2 * half, yy + r)
    ∷ (x + 2 * half, yy + hh)
    ∷ []

abbrev pub piece : Bool → ℕ → ℕ → ℕ → ℕ → List (ℕ × ℕ)
piece top x y half h =
    corners x (y + gap_of top h) half (h - gap_of top h) (radius_of top (h - gap_of top h) half)

-- `none` is the empty group.
unfoldable pub segment : Bool → ℕ → ℕ → ℕ → ℕ → Option (List (ℕ × ℕ))
segment top x y half h = if h == 0 || half == 0 then none else some (piece top x y half h)

-- A series of the stack: its colour, and for each row whether its piece is round.
pub record StackBar : Type 0 where
  pub key : Str
  pub name : Str
  pub fill : Str
  pub is_round : List Bool

abbrev is_key : Str → Option Str → Bool
is_key key none = false
is_key key (some k) = k === key

unfoldable pub stacked_bars : List ChartRow → List Series → List StackBar
stacked_bars rows series =
    let tops = top_keys rows series in
    map
      (λ s. record {
        key = s.key;
        name = s.label;
        fill = s.color;
        is_round = map (is_key s.key) tops;
      })
      series

pub record LineView : Type 0 where
  pub key : Str
  pub name : Str
  pub stroke : Str
  pub has_dots : Bool

unfoldable pub lines : List ChartRow → List Series → List LineView
lines rows series =
    map
      (λ s. record {
        key = s.key;
        name = s.label;
        stroke = s.color;
        has_dots = needs_dots rows s.key;
      })
      series

-- The corner lies in the box of the bar, below the gap.
abbrev pub IsInside : ℕ → ℕ → ℕ → ℕ → ℕ × ℕ → Type 0
IsInside x y half h (a, b) = (x ≤ a) × (a ≤ x + 2 * half) × (y ≤ b) × (b ≤ y + h)

corners-AreInside :
    (x y half h g r : ℕ)
    → g ≤ h
    → r ≤ h - g
    → r ≤ half
    → All (IsInside x y half h) (corners x (y + g) half (h - g) r)
corners-AreInside x y half h g r small low narrow =
    let left : x ≤ x = omega arith in
    let right : x + 2 * half ≤ x + 2 * half = omega arith in
    let over : x ≤ x + 2 * half = omega arith in
    let top : (y ≤ y + g) × (y + g ≤ y + h) = (omega arith, omega (arith, small)) in
    let bend : (y ≤ y + g + r) × (y + g + r ≤ y + h) = (omega arith, omega (arith, small, low)) in
    let bottom : (y ≤ y + g + (h - g)) × (y + g + (h - g) ≤ y + h) =
      (omega arith, omega (arith, small)) in
    let (t0, t1) = top in
    let (b0, b1) = bend in
    let (c0, c1) = bottom in
    (
      (left, over, c0, c1),
      (
        (left, over, b0, b1),
        (
          (left, over, t0, t1),
          (
            (omega arith, omega (arith, narrow), t0, t1),
            (
              (omega (arith, narrow), omega arith, t0, t1),
              ((over, right, t0, t1), ((over, right, b0, b1), ((over, right, c0, c1), tt))),
            ),
          ),
        ),
      ),
    )

gap_le : (top : Bool) (h : ℕ) → gap_of top h ≤ h
gap_le true h = omega arith
gap_le false h = ground arith

radius_le :
    (top : Bool) (hh half : ℕ) → (radius_of top hh half ≤ hh) × (radius_of top hh half ≤ half)
radius_le true hh half = (omega arith, omega arith)
radius_le false hh half = (omega arith, omega arith)

-- The path of a piece stays in the box that the chart has for it.
pub segment-AreInside :
    (top : Bool) (x y half h : ℕ) (ps : List (ℕ × ℕ))
    → segment top x y half h ≡ some ps
    → All (IsInside x y half h) ps
unfolding segment
segment-AreInside top x y half h ps e = elim (Bool-cases (h == 0 || half == 0)) [
  | inl flat ↦ absurd (cc (rw flat at e))
  | inr full ↦
      let same : piece top x y half h ≡ ps = cc (rw full at e) in
      let (low, narrow) = radius_le top (h - gap_of top h) half in
      subst (All (IsInside x y half h)) same (
        corners-AreInside x y half h (gap_of top h) (radius_of top (h - gap_of top h) half)
          (gap_le top h) low narrow)
]
