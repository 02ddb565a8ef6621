-- ===== src/Overview/Tests.antt =====
-- A request of two steps, and the usage of two minutes.
use restitch_gateway.Prelude.{
  ℕ, ◌≤◌, ◌≡◌, ◌⊎◌, refl, true, false, none, some, List, [], ◌∷◌, codes, ◌===◌, ◌==◌, any,
}
use restitch_gateway.Overview.{
  Bucket, StepSample, SampledRequest, axis_total, ends_max, bar_of, Bar, waterfall, usage_section,
  total_from, slowest_from, toggle, request_key, open_overview, set_range, query_from,
}
use restitch_gateway.Overview.Axis.{end_of, AllPairs, IsDrawn, waterfall-IsDrawn}

abbrev step : ℕ → ℕ → StepSample
step start duration = record {
  name = codes "a";
  upstream = codes "u";
  status = codes "failed";
  cached = false;
  error = [];
  start_offset_ms = start;
  duration_ms = duration;
}

-- The second step ends after the request did.
abbrev request : SampledRequest
request = record {
  instance_id = codes "i";
  id = codes "1";
  status = 200;
  partial = true;
  duration_ms = 900;
  steps = step 0 3 ∷ step 400 600 ∷ [];
}

abbrev bars : List Bar
bars =
    record { left = 0; width = 1000; is_failed = true }
    ∷ record { left = 80000; width = 120000; is_failed = true }
    ∷ []

drawn : waterfall request ≡ some bars
unfolding waterfall axis_total ends_max bar_of ◌===◌
drawn = refl

waterfall-IsDrawn_example :
    AllPairs (IsDrawn (axis_total request)) request.steps bars
    × (request.duration_ms ≤ axis_total request)
    × (1 ≤ axis_total request)
    × ((axis_total request ≡ 1)
        ⊎ (axis_total request ≡ request.duration_ms)
        ⊎ (any (λ s. end_of s == axis_total request) request.steps ≡ true))
waterfall-IsDrawn_example = waterfall-IsDrawn request bars drawn

-- A step of no time at the end is drawn behind the axis, which ends at 200 times its length.
past_end : bar_of 1000 (step 1000 0) ≡ record { left = 200000; width = 1000; is_failed = true }
unfolding bar_of ◌===◌
past_end = refl

abbrev buckets : List Bucket
buckets =
    record { timestamp = codes "10:00"; requests = 7; errors = 2; p95_ms = 40 }
    ∷ record { timestamp = codes "10:01"; requests = 3; errors = 0; p95_ms = 90 }
    ∷ []

rate_shown : (usage_section (λ s. s) buckets []).error_rate ≡ some (2, 10)
unfolding usage_section total_from
rate_shown = refl

slowest_shown : (usage_section (λ s. s) buckets []).slowest ≡ some 90
unfolding usage_section total_from slowest_from
slowest_shown = refl

toggled_back : toggle request (toggle request none) ≡ none
unfolding toggle request_key ◌===◌
toggled_back = refl

-- The start of the range does not move with the time: an hour after the page was opened, the range of one
-- hour still starts an hour before the opening.
fixed_start : query_from (set_range (codes "6h") (open_overview 100000000)) ≡ 78400000
unfolding query_from set_range ◌===◌
fixed_start = refl
