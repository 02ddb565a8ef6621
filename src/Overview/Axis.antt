-- ===== src/Overview/Axis.antt =====
-- The axis and the bars of Waterfall of OverviewPage.tsx.
use restitch_gateway.Prelude.{
  ℕ, ◌+◌, ◌*◌, ◌<◌, ◌≤◌, ◌≡◌, refl, sym, subst, Bool-cases, true, ◌⊎◌, inl, inr, some, List, [],
  ◌∷◌, map, arith, ◌==◌, any, All, All-imp,
}
use restitch_gateway.Overview.{
  StepSample, SampledRequest, ends_max, axis_total, Bar, bar_of, bars_or_none, waterfall,
}

abbrev pub end_of : StepSample → ℕ
end_of s = s.start_offset_ms + s.duration_ms

abbrev Fits : ℕ → StepSample → Type 0
Fits n s = end_of s ≤ n

ends_fit : (steps : List StepSample) → All (Fits (ends_max steps)) steps × (1 ≤ ends_max steps)
unfolding ends_max
ends_fit [] = (tt, omega arith)
ends_fit (s ∷ steps) =
    let (fit, low) = ends_fit steps in
    (
      (omega arith, All-imp (Fits (ends_max steps)) (Fits _) (λ t h. omega (arith, h)) steps fit),
      omega (arith, low),
    )

ends_attained :
    (steps : List StepSample) (n : ℕ)
    → ends_max steps ≡ n
    → (n ≡ 1) ⊎ (any (λ s. end_of s == n) steps ≡ true)
unfolding ends_max
ends_attained [] n h = inl (sym h)
ends_attained (s ∷ steps) n h = elim (Bool-cases (end_of s == n)) [
  | inl e ↦ inr (rw e refl)
  | inr e ↦ elim (ends_attained steps n (ground (arith, h, e))) [
    | inl one ↦ inl one
    | inr later ↦ inr (rw e later)
  ]
]

axis_attained :
    (r : SampledRequest)
    → (axis_total r ≡ 1)
      ⊎ (axis_total r ≡ r.duration_ms)
      ⊎ (any (λ s. end_of s == axis_total r) r.steps ≡ true)
unfolding axis_total
axis_attained r = elim (Bool-cases (axis_total r == r.duration_ms)) [
  | inl e ↦ inr (inl (ground (arith, e)))
  | inr e ↦ elim (ends_attained r.steps (axis_total r) (ground (arith, e))) [
    | inl one ↦ inl one
    | inr step ↦ inr (inr step)
  ]
]

-- Where a bar of a step lies on an axis of some length. It shows the whole duration from its start on,
-- is visible, and passes the end of the axis by half a percent at most, and only if it is widened.
pub record IsDrawn (total : ℕ) (s : StepSample) (b : Bar) : Type 0 where
  pub starts : b.left ≡ s.start_offset_ms * 200
  pub whole : end_of s * 200 ≤ b.left + b.width
  pub visible : total ≤ b.width
  pub ends : b.left + b.width ≤ total * 201
  pub exact : total < b.width → b.left + b.width ≡ end_of s * 200

-- Lists of one length, whose elements are related in their order.
abbrev pub AllPairs : {A B : Type 0} → (A → B → Type 0) → List A → List B → Type 0
AllPairs R [] [] = Unit
AllPairs R [] (b ∷ bs) = ⊥
AllPairs R (a ∷ xs) [] = ⊥
AllPairs R (a ∷ xs) (b ∷ bs) = R a b × AllPairs R xs bs

bar_of-IsDrawn : (total : ℕ) (s : StepSample) → end_of s ≤ total → IsDrawn total s (bar_of total s)
unfolding bar_of
bar_of-IsDrawn total s fit = record {
  starts = refl;
  whole = omega arith;
  visible = omega arith;
  ends = omega (arith, fit);
  exact = λ wide. omega (arith, wide);
}

bars-IsDrawn :
    (total : ℕ) (steps : List StepSample)
    → All (Fits total) steps
    → AllPairs (IsDrawn total) steps (map (bar_of total) steps)
bars-IsDrawn total [] h = tt
bars-IsDrawn total (s ∷ steps) (h, hs) = (bar_of-IsDrawn total s h, bars-IsDrawn total steps hs)

drawn :
    (total : ℕ) (steps : List StepSample) (bars : List Bar)
    → bars_or_none total steps ≡ some bars
    → All (Fits total) steps
    → AllPairs (IsDrawn total) steps bars
drawn total [] bars h fit = cc
drawn total (s ∷ steps) bars h fit =
    let same : map (bar_of total) (s ∷ steps) ≡ bars = cc in
    subst (AllPairs (IsDrawn total) (s ∷ steps)) same (bars-IsDrawn total (s ∷ steps) fit)

-- There is a bar for each step of a request, in the same order. It begins at the start of the step and
-- covers its duration, is at least half a percent of the axis wide, and ends on the axis or, by half a
-- percent at most, behind it; a bar that is wider than that half percent ends exactly with its step. The
-- duration of the request lies on the axis, which is not empty and no longer than it must be: its
-- length is 1, the duration of the request, or the end of a step.
pub waterfall-IsDrawn :
    (r : SampledRequest) (bars : List Bar)
    → waterfall r ≡ some bars
    → AllPairs (IsDrawn (axis_total r)) r.steps bars
      × (r.duration_ms ≤ axis_total r)
      × (1 ≤ axis_total r)
      × ((axis_total r ≡ 1)
          ⊎ (axis_total r ≡ r.duration_ms)
          ⊎ (any (λ s. end_of s == axis_total r) r.steps ≡ true))
unfolding waterfall axis_total
waterfall-IsDrawn r bars h =
    let (fit, low) = ends_fit r.steps in
    let wide =
      All-imp (Fits (ends_max r.steps)) (Fits (axis_total r)) (λ s e. omega (arith, e)) r.steps
        fit in
    (drawn (axis_total r) r.steps bars h wide, omega arith, omega (arith, low), axis_attained r)
