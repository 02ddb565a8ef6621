-- ===== src/Formats/Tests.antt =====
-- Runs of the formats.
use restitch_gateway.Prelude.{ℕ, ◌≡◌, refl, true, none, some, [], ◌∷◌, ◌++◌, map, Str, codes, ◌===◌}
use restitch_gateway.Text.{contains, index_of, index_from, starts_with, split, push_front}
use restitch_gateway.Formats.{
  add, remove, meta, classify_diff_line, pop_empty, diff_line, diff_lines, minutes, hours,
  round_thousandths, format_ms, format_duration, tenths, whole, scale_bytes, format_bytes,
  minutes_ago, format_relative, color_in, state_color, format_rate, format_time, is_mac,
}

abbrev sample : Str
sample = codes "--- a" ++ 10 ∷ (codes "-x" ++ 10 ∷ (codes "+y" ++ 10 ∷ []))

sample_kinds : map (λ l. l.kind) (diff_lines sample) ≡ meta ∷ remove ∷ add ∷ []
unfolding diff_lines diff_line pop_empty split push_front classify_diff_line starts_with ◌===◌
sample_kinds = refl

abbrev no_fixed : ℕ → Str
no_fixed ms = []

-- "1 min 60 s".
sixty_seconds : format_ms no_fixed (some 119600) ≡ minutes 1 60
unfolding format_ms round_thousandths
sixty_seconds = refl

an_hour : format_duration no_fixed (some 3725000) ≡ hours 1 2
unfolding format_duration round_thousandths
an_hour = refl

some_bytes : format_bytes 1536 ≡ tenths 15 0
unfolding format_bytes scale_bytes
some_bytes = refl

-- "1024 KiB".
full_unit : format_bytes 1048575 ≡ whole 1024 0
unfolding format_bytes scale_bytes
full_unit = refl

an_age : format_relative (some 200) ≡ minutes_ago 3
unfolding format_relative
an_age = refl

unknown_state : state_color (λ s. s) (codes "paused") ≡ codes "var(--state-queued)"
unfolding state_color color_in ◌===◌
unknown_state = refl

phone : is_mac (some (codes "iPhone")) ≡ true
unfolding is_mac contains index_of index_from starts_with
phone = refl

rate_text : format_rate (λ r. r) (some (codes "99.5")) ≡ codes "99.5%"
unfolding format_rate
rate_text = refl

empty_time : format_time (λ t. t) (some []) ≡ format_time (λ t. t) none
unfolding format_time
empty_time = refl
