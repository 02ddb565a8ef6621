-- ===== src/Overview.antt =====
-- studio/src/features/dashboard/OverviewPage.tsx: the ranges, the tiles and charts of the usage, the
-- instances, the sampled requests and the axis of a request's steps. Times and durations are whole
-- milliseconds; a rate is the fraction that is shown as a percentage.
pub mod Axis
pub mod Usage
pub mod Tests
use restitch_gateway.Prelude.{
  ℕ, zero, suc, ◌+◌, ◌-◌, ◌*◌, max, Bool, true, false, not, ◌&&◌, ◌||◌, Option, none, some, List,
  [], ◌∷◌, ◌++◌, map, Str, codes, ◌===◌, ◌==◌, leb, if◌then◌else◌, length, filter, find, ℤ, pos,
  sub_ℕ,
}
use restitch_gateway.Charts.{ChartRow, Series, number}
use restitch_gateway.Session.{Query}
use restitch_gateway.Pages.{Content, data_state, is_empty}

pub record RangeOption : Type 0 where
  pub value : Str
  pub label : Str
  pub ms : ℕ

abbrev pub ranges : List RangeOption
ranges =
    record { value = codes "1h"; label = codes "1 hour"; ms = 3600000 }
    ∷ record { value = codes "6h"; label = codes "6 hours"; ms = 6 * 3600000 }
    ∷ record { value = codes "24h"; label = codes "24 hours"; ms = 24 * 3600000 }
    ∷ []

abbrev span_or_none : Option RangeOption → ℕ
span_or_none none = 0
span_or_none (some r) = r.ms

-- The state of the page: the range, and the time at which it was opened.
pub record OverviewState : Type 0 where
  pub range : Str
  pub opened : ℕ

abbrev pub open_overview : ℕ → OverviewState
open_overview now = record { range = codes "1h"; opened = now }

unfoldable pub set_range : Str → OverviewState → OverviewState
set_range range st = record st { range = range }

-- The start of the time that the usage is asked for; the time of opening is past the longest range.
unfoldable pub query_from : OverviewState → ℕ
query_from st = st.opened - span_or_none (find (λ r. r.value === st.range) ranges)

pub record Bucket : Type 0 where
  pub timestamp : Str
  pub requests : ℕ
  pub errors : ℕ
  pub p95_ms : ℕ

pub record UpstreamUsage : Type 0 where
  pub name : Str
  pub requests : ℕ
  pub errors : ℕ
  pub breakers : List (Str × Str)

-- `buckets.reduce((n, b) => n + f(b), n)`, and the same with `Math.max`.
unfoldable pub total_from : (Bucket → ℕ) → ℕ → List Bucket → ℕ
total_from f n [] = n
total_from f n (b ∷ buckets) = total_from f (n + f b) buckets

unfoldable pub slowest_from : ℕ → List Bucket → ℕ
slowest_from m [] = m
slowest_from m (b ∷ buckets) = slowest_from (max m b.p95_ms) buckets

-- `minute` is the local time of a timestamp. Fewer requests than errors give a negative number.
unfoldable pub usage_row : (Str → Str) → Bucket → ChartRow
usage_row minute b = record {
  label = minute b.timestamp;
  cells =
      (codes "ok", number (sub_ℕ b.requests b.errors))
      ∷ (codes "errors", number (pos b.errors))
      ∷ (codes "p95", number (pos b.p95_ms))
      ∷ [];
}

-- A row of the table of upstreams: its rate of errors, `none` for a dash, and the breakers that are not
-- closed.
pub record UpstreamRow : Type 0 where
  pub name : Str
  pub requests : ℕ
  pub rate : Option (ℕ × ℕ)
  pub not_closed : List (Str × Str)

abbrev pub rate_of : ℕ → ℕ → Option (ℕ × ℕ)
rate_of errors requests = if requests == 0 then none else some (errors, requests)

unfoldable pub upstream_row : UpstreamUsage → UpstreamRow
upstream_row u = record {
  name = u.name;
  requests = u.requests;
  rate = rate_of u.errors u.requests;
  not_closed = filter (λ b. not (b.1 === codes "closed")) u.breakers;
}

pub record UsageView : Type 0 where
  pub total : ℕ
  pub error_rate : Option (ℕ × ℕ)
  pub slowest : Option ℕ
  pub rows : List ChartRow
  pub upstreams : List UpstreamRow

abbrev pub usage_total : List Bucket → ℕ
usage_total = total_from (λ b. b.requests) 0

abbrev pub usage_errors : List Bucket → ℕ
usage_errors = total_from (λ b. b.errors) 0

unfoldable pub usage_section : (Str → Str) → List Bucket → List UpstreamUsage → UsageView
usage_section minute buckets upstreams = record {
  total = usage_total buckets;
  error_rate = rate_of (usage_errors buckets) (usage_total buckets);
  slowest = if usage_total buckets == 0 then none else some (slowest_from 0 buckets);
  rows = map (usage_row minute) buckets;
  upstreams = map upstream_row upstreams;
}

pub record Instance : Type 0 where
  pub instance_id : Str
  pub applied_version : ℕ
  pub binary_version : Str
  pub stale : Bool
  pub last_pull_error : Str

-- The version, `none` for the word, the version that it is behind, and the state of the last pull.
pub record InstanceRow : Type 0 where
  pub version : Option ℕ
  pub behind : Option ℕ
  pub stale : Bool
  pub pull : Str

unfoldable pub instance_row : ℕ → Instance → InstanceRow
instance_row current i = record {
  version = if i.applied_version == 0 then none else some i.applied_version;
  behind = if i.applied_version == current then none else some current;
  stale = i.stale;
  pull = elim i.last_pull_error [ [] ↦ codes "OK" | c ∷ s ↦ c ∷ s ];
}

pub record StepSample : Type 0 where
  pub name : Str
  pub upstream : Str
  pub status : Str
  pub cached : Bool
  pub error : Str
  pub start_offset_ms : ℕ
  pub duration_ms : ℕ

pub record SampledRequest : Type 0 where
  pub instance_id : Str
  pub id : Str
  pub status : ℕ
  pub partial : Bool
  pub duration_ms : ℕ
  pub steps : List StepSample

-- RequestList.
unfoldable pub request_key : SampledRequest → Str
request_key r = r.instance_id ++ (b'/' ∷ r.id)

abbrev pub is_open : Option Str → Str → Bool
is_open none key = false
is_open (some k) key = k === key

unfoldable pub toggle : SampledRequest → Option Str → Option Str
toggle r shown = if is_open shown (request_key r) then none else some (request_key r)

-- Enter and the space bar toggle the row that has the focus.
unfoldable pub on_row_key : Str → SampledRequest → Option Str → Option Str
on_row_key key r shown =
    if key === codes "Enter" || key === codes " " then toggle r shown else shown

pub record RequestRow : Type 0 where
  pub failed : Bool
  pub partial : Bool
  pub expanded : Bool

unfoldable pub request_row : Option Str → SampledRequest → RequestRow
request_row shown r = record {
  failed = leb 500 r.status || r.partial;
  partial = r.partial;
  expanded = is_open shown (request_key r);
}

-- Waterfall: `Math.max` of the duration, the ends of the steps and 1.
unfoldable pub ends_max : List StepSample → ℕ
ends_max [] = 1
ends_max (s ∷ steps) = max (s.start_offset_ms + s.duration_ms) (ends_max steps)

unfoldable pub axis_total : SampledRequest → ℕ
axis_total r = max r.duration_ms (ends_max r.steps)

-- A bar as the CSS has it: its left edge and its width as numerators over 200 times the length of the
-- axis. A bar is half a percent of the axis wide at least.
pub record Bar : Type 0 where
  pub left : ℕ
  pub width : ℕ
  pub is_failed : Bool

unfoldable pub bar_of : ℕ → StepSample → Bar
bar_of total s = record {
  left = s.start_offset_ms * 200;
  width = max (s.duration_ms * 200) total;
  is_failed = s.status === codes "failed";
}

-- `none` is the sentence that the request ran no step.
abbrev pub bars_or_none : ℕ → List StepSample → Option (List Bar)
bars_or_none total [] = none
bars_or_none total (s ∷ steps) = some (map (bar_of total) (s ∷ steps))

unfoldable pub waterfall : SampledRequest → Option (List Bar)
waterfall r = bars_or_none (axis_total r) r.steps

-- What the page shows below its header.
pub data OverviewContent : Type 0 where
  no_gateway : OverviewContent
  sections :
      Content (List Bucket × List UpstreamUsage)
      → Content (List Instance)
      → Content (List SampledRequest)
      → OverviewContent

abbrev no_instances : Option (List Instance) → Bool
no_instances none = false
no_instances (some instances) = is_empty instances

unfoldable pub overview_content :
    Query (List Instance)
    → Query (List Bucket × List UpstreamUsage)
    → Query (List SampledRequest)
    → OverviewContent
overview_content instances usage requests =
    if no_instances instances.value
    then no_gateway
    else sections (data_state (λ u. false) (codes "Nothing to show.") usage)
        (data_state (λ d. false) (codes "Nothing to show.") instances)
        (data_state is_empty
          (codes
            "No request sampled yet. Every failed request and a few successful ones per minute land here.")
          requests)
