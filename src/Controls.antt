-- ===== src/Controls.antt =====
-- The controls that keep a state of their own or move a selection: components/ui/segmented.tsx,
-- components/ui/tabs.tsx, components/ui/dialog.tsx and components/ui/field.tsx of studio/src. Where the
-- thumb and the bar are drawn is left out.
pub mod Ring
pub mod Sheets
pub mod Tests
use restitch_gateway.Prelude.{
  ℕ, zero, suc, ◌+◌, ◌-◌, ◌%◌, Bool, true, false, not, ◌&&◌, ◌||◌, Option, none, some, List, [],
  ◌∷◌, ◌++◌, Str, codes, ◌===◌, ◌==◌, if◌then◌else◌, get_elem?, length, map, any,
}

pub record Segment : Type 0 where
  pub value : Str
  pub label : Str

-- `findIndex`; `none` is -1.
unfoldable pub index_of_value : List Segment → Str → Option ℕ
index_of_value [] value = none
index_of_value (o ∷ options) value =
    if o.value === value
    then some 0
    else elim (index_of_value options value) [ none ↦ none | some i ↦ some (suc i) ]

pub data Direction : Type 0 where
  forward backward : Direction

unfoldable pub direction_of : Str → Option Direction
direction_of key =
    if key === codes "ArrowRight" || key === codes "ArrowDown"
    then some forward
    else if key === codes "ArrowLeft" || key === codes "ArrowUp"
    then some backward
    else none

-- `(i + step + n) % n` for `n` options. From -1 backwards it is n - 2, and the negative zero for one
-- option; with no option there is no place.
abbrev pub place_after : Option ℕ → Direction → ℕ → Option ℕ
place_after i d zero = none
place_after none forward (suc n) = some 0
place_after none backward (suc zero) = some 0
place_after none backward (suc (suc n)) = some n
place_after (some i) forward (suc n) = some ((i + 1 + suc n) % suc n)
place_after (some i) backward (suc n) = some ((i + n) % suc n)

abbrev pub option_at : List Segment → Option ℕ → Option Segment
option_at options none = none
option_at options (some i) = get_elem? options i

-- What a key chooses: the option that gets the value and the focus.
abbrev pub move : List Segment → Str → Option Direction → Option Segment
move options value none = none
move options value (some d) =
    option_at options (place_after (index_of_value options value) d (length options))

unfoldable pub on_key_down : List Segment → Str → Str → Option Segment
on_key_down options value key = move options value (direction_of key)

-- The value after a key, where the owner takes what the control chooses.
abbrev pub value_or : Str → Option Segment → Str
value_or value none = value
value_or value (some o) = o.value

unfoldable pub press : List Segment → Str → Str → Str
press options key value = value_or value (on_key_down options value key)

abbrev is_first : List Segment → Segment → Bool
is_first [] o = false
is_first (p ∷ options) o = p.value === o.value

-- Each segment: whether it is checked, and whether the tab key reaches it. The values differ.
unfoldable pub segments : List Segment → Str → List (Bool × Bool)
segments options value =
    map
      (λ o. (
        o.value === value,
        o.value === value || not (any (λ x. x.value === value) options) && is_first options o,
      ))
      options

-- tabs.tsx: which tab is selected.
unfoldable pub tab_states : List Segment → Str → List Bool
tab_states tabs value = map (λ t. t.value === value) tabs

-- dialog.tsx: what the owner says, whether the content is mounted, whether the native element is open,
-- and whether the timer of 220 ms that unmounts the content runs.
pub record DialogState : Type 0 where
  pub shown : Bool
  pub rendered : Bool
  pub native : Bool
  pub unmounting : Bool

unfoldable pub mount_dialog : Bool → DialogState
mount_dialog shown = record {
  shown = shown;
  rendered = shown;
  native = shown;
  unmounting = not shown;
}

pub data DialogEvent : Type 0 where
  set_shown : Bool → DialogEvent
  timed_out : DialogEvent

abbrev same_bool : Bool → Bool → Bool
same_bool true b = b
same_bool false b = not b

-- A render with a value of `open`, its effect if the value has changed, and the timer.
unfoldable pub dialog_step : DialogEvent → DialogState → DialogState
dialog_step (set_shown v) d =
    if same_bool v d.shown
    then d
    else record { shown = v; rendered = v || d.rendered; native = v; unmounting = not v }
dialog_step timed_out d =
    if d.unmounting then record d { rendered = false; unmounting = false } else d

unfoldable pub dialog_run : List DialogEvent → DialogState → DialogState
dialog_run [] d = d
dialog_run (e ∷ es) d = dialog_run es (dialog_step e d)

-- Field: `aria-describedby`, of the parts that are there.
abbrev is_filled : Option Str → Bool
is_filled none = false
is_filled (some []) = false
is_filled (some (c ∷ s)) = true

abbrev join_two : Option Str → Option Str → Option Str
join_two none none = none
join_two (some a) none = some a
join_two none (some b) = some b
join_two (some a) (some b) = some (a ++ (b' ' ∷ b))

unfoldable pub described_by : Str → Option Str → Option Str → Option Str
described_by id hint error =
    join_two (if is_filled hint then some (id ++ codes "-hint") else none)
      (if is_filled error then some (id ++ codes "-error") else none)
