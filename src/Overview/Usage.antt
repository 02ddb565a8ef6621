-- ===== src/Overview/Usage.antt =====
-- The sums of UsageSection of OverviewPage.tsx.
use restitch_gateway.Prelude.{
  ℕ, ◌+◌, ◌≤◌, ◌<◌, max, ◌≡◌, refl, true, ◌⊎◌, inl, inr, some, List, [], ◌∷◌, Str, arith, ◌==◌, any,
  All, All-imp, Bool-cases,
}
use restitch_gateway.Overview.{Bucket, UpstreamUsage, total_from, slowest_from, usage_section}

totals_le :
    (f g : Bucket → ℕ) (buckets : List Bucket) (m n : ℕ)
    → All (λ b. f b ≤ g b) buckets
    → m ≤ n
    → total_from f m buckets ≤ total_from g n buckets
unfolding total_from
totals_le f g [] m n h le = le
totals_le f g (b ∷ buckets) m n (h, hs) le =
    totals_le f g buckets (m + f b) (n + g b) hs (omega (arith, h, le))

-- The rate of errors that the tile shows is a fraction of at most one with a numerator and a denominator
-- that are the sums over the buckets, if no bucket has more errors than requests; it is shown only if
-- there was a request.
pub usage_section-rate :
    (minute : Str → Str) (buckets : List Bucket) (upstreams : List UpstreamUsage)
    (errors requests : ℕ)
    → All (λ b. b.errors ≤ b.requests) buckets
    → (usage_section minute buckets upstreams).error_rate ≡ some (errors, requests)
    → (errors ≤ requests) × (0 < requests)
unfolding usage_section
usage_section-rate minute buckets upstreams errors requests sound h =
    ground (arith, h, totals_le (λ b. b.errors) (λ b. b.requests) buckets 0 0 sound)

slowest_grows : (buckets : List Bucket) (m : ℕ) → m ≤ slowest_from m buckets
unfolding slowest_from
slowest_grows [] m = omega arith
slowest_grows (b ∷ buckets) m = omega (arith, slowest_grows buckets (max m b.p95_ms))

slowest_bounds :
    (buckets : List Bucket) (m : ℕ) → All (λ b. b.p95_ms ≤ slowest_from m buckets) buckets
unfolding slowest_from
slowest_bounds [] m = tt
slowest_bounds (b ∷ buckets) m =
    (omega (arith, slowest_grows buckets (max m b.p95_ms)), slowest_bounds buckets (max m b.p95_ms))

slowest_attained :
    (buckets : List Bucket) (m n : ℕ)
    → slowest_from m buckets ≡ n
    → (n ≡ m) ⊎ (any (λ b. b.p95_ms == n) buckets ≡ true)
unfolding slowest_from
slowest_attained [] m n h = inl (ground (arith, h))
slowest_attained (b ∷ buckets) m n h = elim (Bool-cases (b.p95_ms == n)) [
  | inl e ↦ inr (rw e refl)
  | inr e ↦ elim (slowest_attained buckets (max m b.p95_ms) n h) [
    | inl same ↦ inl (ground (arith, same, e))
    | inr later ↦ inr (rw e later)
  ]
]

-- The slowest p95 of the tile is at least that of each bucket, and is that of one of them or 0.
pub usage_section-slowest :
    (minute : Str → Str) (buckets : List Bucket) (upstreams : List UpstreamUsage) (slowest : ℕ)
    → (usage_section minute buckets upstreams).slowest ≡ some slowest
    → All (λ b. b.p95_ms ≤ slowest) buckets
      × ((slowest ≡ 0) ⊎ (any (λ b. b.p95_ms == slowest) buckets ≡ true))
unfolding usage_section
usage_section-slowest minute buckets upstreams slowest h =
    let same : slowest_from 0 buckets ≡ slowest = ground (arith, h) in
    (
      All-imp (λ b. b.p95_ms ≤ slowest_from 0 buckets) (λ b. b.p95_ms ≤ slowest)
          (λ b le. omega (arith, le, same)) buckets (slowest_bounds buckets 0),
      slowest_attained buckets 0 slowest same,
    )
