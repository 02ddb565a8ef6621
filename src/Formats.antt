-- ===== src/Formats.antt =====
-- studio/src/lib/diff.ts, studio/src/lib/charts.ts and studio/src/lib/utils.ts: the lines of a diff, and
-- durations, sizes and times in words. A duration is in whole milliseconds. A format is the numbers in the
-- text; `fixed` is the text of `(ms / 1000).toFixed(1)`, which rounds in floating point.
pub mod Lines
pub mod Tests
use restitch_gateway.Prelude.{
  ℕ, zero, suc, ◌+◌, ◌*◌, ◌/◌, ◌%◌, Bool, true, false, not, ◌&&◌, ◌||◌, Option, none, some, List,
  [], ◌∷◌, ◌++◌, map, Str, codes, ◌===◌, ltb, if◌then◌else◌,
}
use restitch_gateway.Text.{contains, starts_with, split}

-- diff.ts
pub data DiffLineKind : Type 0 where
  add remove hunk meta context : DiffLineKind

unfoldable pub classify_diff_line : Str → DiffLineKind
classify_diff_line line =
    if starts_with line (codes "+++ ")
      || starts_with line (codes "--- ")
      || line === codes "+++"
      || line === codes "---"
    then meta
    else if starts_with line (codes "diff ")
        || starts_with line (codes "index ")
        || starts_with line (b'\\' ∷ b' ' ∷ [])
    then meta
    else if starts_with line (codes "@@")
    then hunk
    else if starts_with line (codes "+")
    then add
    else if starts_with line (codes "-")
    then remove
    else context

pub record DiffLine : Type 0 where
  pub kind : DiffLineKind
  pub text : Str

-- `if (lines[lines.length - 1] === "") lines.pop()`.
unfoldable pub pop_empty : List Str → List Str
pop_empty [] = []
pop_empty (x ∷ []) = if x === [] then [] else x ∷ []
pop_empty (x ∷ y ∷ xs) = x ∷ pop_empty (y ∷ xs)

unfoldable pub diff_line : Str → DiffLine
diff_line l = record { kind = classify_diff_line l; text = l }

unfoldable pub diff_lines : Str → List DiffLine
diff_lines [] = []
diff_lines (c ∷ text) = map diff_line (pop_empty (split 10 (c ∷ text)))

-- charts.ts
abbrev pub state_colors : List (Str × Str)
state_colors =
    (codes "success", codes "var(--state-success)")
    ∷ (codes "failed", codes "var(--state-failed)")
    ∷ (codes "timed_out", codes "var(--state-timed-out)")
    ∷ (codes "cancelled", codes "var(--state-cancelled)")
    ∷ (codes "skipped", codes "var(--state-skipped)")
    ∷ (codes "running", codes "var(--state-running)")
    ∷ (codes "cancelling", codes "var(--state-running)")
    ∷ (codes "queued", codes "var(--state-queued)")
    ∷ []

unfoldable pub color_in : List (Str × Str) → Str → Str
color_in [] state = codes "var(--state-queued)"
color_in ((k, color) ∷ colors) state = if k === state then color else color_in colors state

unfoldable pub state_color : (Str → Str) → Str → Str
state_color lower state = color_in state_colors (lower state)

-- The texts of formatMs and formatDuration: a dash, ms, s, min and s, h and m.
pub data DurationText : Type 0 where
  dash : DurationText
  millis : ℕ → DurationText
  seconds : Str → DurationText
  minutes : ℕ → ℕ → DurationText
  hours : ℕ → ℕ → DurationText

-- `Math.round` of a number of thousandths.
unfoldable pub round_thousandths : ℕ → ℕ
round_thousandths n = (n + 500) / 1000

module _ (fixed : ℕ → Str) where
  abbrev ms_text : ℕ → DurationText
  ms_text ms =
      if ltb ms 1000
      then millis ms
      else if ltb ms 60000
      then seconds (fixed ms)
      else minutes (ms / 60000) (round_thousandths (ms % 60000))

  unfoldable pub format_ms : Option ℕ → DurationText
  format_ms none = dash
  format_ms (some ms) = ms_text ms

  abbrev duration_text : ℕ → DurationText
  duration_text ms =
      if ltb ms 1000
      then millis ms
      else if ltb ms 60000
      then seconds (fixed ms)
      else if ltb (ms / 60000) 60
      then minutes (ms / 60000) (round_thousandths (ms % 60000))
      else hours (ms / 60000 / 60) (ms / 60000 % 60)

  unfoldable pub format_duration : Option ℕ → DurationText
  format_duration none = dash
  format_duration (some ms) = duration_text ms

-- Bytes, or a number with the unit of the given place: in tenths below ten, else whole.
pub data BytesText : Type 0 where
  bytes : ℕ → BytesText
  tenths : ℕ → ℕ → BytesText
  whole : ℕ → ℕ → BytesText

-- The `while` loop: `v` is `n / d`, and there are `left` larger units.
unfoldable pub scale_bytes : ℕ → ℕ → ℕ → ℕ → BytesText
scale_bytes zero n d i =
    if ltb n (10 * d) then tenths ((n * 20 + d) / (2 * d)) i else whole ((2 * n + d) / (2 * d)) i
scale_bytes (suc left) n d i =
    let larger = scale_bytes left n (d * 1024) (i + 1) in
    if ltb n (1024 * d)
    then if ltb n (10 * d)
      then tenths ((n * 20 + d) / (2 * d)) i
      else whole ((2 * n + d) / (2 * d)) i
    else larger

unfoldable pub format_bytes : ℕ → BytesText
format_bytes n = if ltb n 1024 then bytes n else scale_bytes 3 n 1024 0

-- formatRelative for a time that is `s` seconds ago, rounded; `none` is a missing time.
pub data RelativeText : Type 0 where
  no_time just_now date : RelativeText
  minutes_ago hours_ago days_ago : ℕ → RelativeText

abbrev relative_days : ℕ → RelativeText
relative_days d = if ltb d 30 then days_ago d else date

abbrev relative_hours : ℕ → RelativeText
relative_hours h = if ltb h 24 then hours_ago h else relative_days ((h + 12) / 24)

abbrev relative_minutes : ℕ → RelativeText
relative_minutes m = if ltb m 60 then minutes_ago m else relative_hours ((m + 30) / 60)

unfoldable pub format_relative : Option ℕ → RelativeText
format_relative none = no_time
format_relative (some s) = if ltb s 45 then just_now else relative_minutes ((s + 30) / 60)

-- `fixed` is the text of `(rate * 100).toFixed(1)`, for a rate as the server sends it.
unfoldable pub format_rate {ℓ} : {A : Type ℓ} → (A → Str) → Option A → Str
format_rate fixed none = 8212 ∷ []
format_rate fixed (some rate) = fixed rate ++ codes "%"

abbrev time_text : (Str → Str) → Str → Str
time_text locale [] = 8212 ∷ []
time_text locale (c ∷ iso) = locale (c ∷ iso)

-- `locale` is `new Date(iso).toLocaleString()`.
unfoldable pub format_time : (Str → Str) → Option Str → Str
format_time locale none = 8212 ∷ []
format_time locale (some iso) = time_text locale iso

-- `navigator.platform`, if there is a navigator.
unfoldable pub is_mac : Option Str → Bool
is_mac none = false
is_mac (some platform) =
    contains platform (codes "Mac")
    || contains platform (codes "iPhone")
    || contains platform (codes "iPad")
