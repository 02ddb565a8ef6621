-- ===== src/Keyboard/Rows.antt =====
-- The marked rows of the list after a key of keyboard.tsx.
use restitch_gateway.Prelude.{
  ℕ, zero, suc, ◌+◌, ◌-◌, ◌≤◌, ◌<◌, ◌≡◌, refl, ap, ◌∙◌, ◌⊎◌, inl, inr, Bool, true, false, not, ◌&&◌,
  Option, none, some, List, [], ◌∷◌, map, arith, Str, codes, ◌===◌, ◌==◌, ltb, if◌then◌else◌,
  Bool-cases, length,
}
use restitch_gateway.Keyboard.{
  Row, is_nav, nav_rows, clear_rows, set_active_row, marked_index, KeyEvent, KeyState, next_row,
  move_row, or_else, plain_key, finish_chord, open_marked, ChordMap, get_chord, on_key,
  is_palette_key, is_ignored, Chord,
}

-- The marks of the rows that the shortcuts see.
unfoldable pub marks : List Row → List Bool
marks rows = map (λ r. r.marked) (nav_rows rows)

abbrev pub marked_count : List Bool → ℕ
marked_count [] = 0
marked_count (b ∷ bs) = (if b then 1 else 0) + marked_count bs

-- `n` marks from position `i` on, with the one at `index` set.
abbrev pub one_hot : ℕ → ℕ → ℕ → List Bool
one_hot i zero index = []
one_hot i (suc n) index = (i == index) ∷ one_hot (suc i) n index

one_hot-past : (i n index : ℕ) → index < i → marked_count (one_hot i n index) ≡ 0
one_hot-past i zero index h = refl
one_hot-past i (suc n) index h = ground (arith, one_hot-past (suc i) n index)

marked_count-one_hot : (i n index : ℕ) → marked_count (one_hot i n index) ≤ 1
marked_count-one_hot i zero index = omega arith
marked_count-one_hot i (suc n) index = elim (Bool-cases (i == index)) [
  | inl same ↦ ground (arith, same, one_hot-past (suc i) n index)
  | inr other ↦ ground (arith, other, marked_count-one_hot (suc i) n index)
]

pub marks-set_active_row :
    (i : ℕ) (rows : List Row) (index : ℕ)
    → marks (set_active_row i rows index) ≡ one_hot i (length (nav_rows rows)) index
unfolding marks nav_rows set_active_row is_nav
marks-set_active_row i [] index = refl
marks-set_active_row i (r ∷ rows) index = elim (Bool-cases (r.visible && not r.skipped)) [
  | inl seen ↦
      rw (seen, seen) (ap (λ l. (i == index) ∷ l) (marks-set_active_row (suc i) rows index))
  | inr hidden ↦ rw (hidden, hidden) (marks-set_active_row i rows index)
]

marked_count-clear_rows : (rows : List Row) → marked_count (marks (clear_rows rows)) ≡ 0
unfolding marks nav_rows clear_rows is_nav
marked_count-clear_rows [] = refl
marked_count-clear_rows (r ∷ rows) = elim (Bool-cases (r.visible && not r.skipped)) [
  | inl seen ↦ rw (seen, seen) (omega (arith, marked_count-clear_rows rows))
  | inr hidden ↦ rw (hidden, hidden) (marked_count-clear_rows rows)
]

abbrev pub IsTidy : KeyState → Type 0
IsTidy st = marked_count (marks st.rows) ≤ 1

move_row-IsTidy : (down : Bool) (st : KeyState) → IsTidy st → IsTidy (move_row down st).state
unfolding move_row
move_row-IsTidy down st h = elim (Bool-cases (length (nav_rows st.rows) == 0)) [
  | inl empty ↦ rw empty h
  | inr some_rows ↦ rw (some_rows, marks-set_active_row 0 st.rows) (marked_count-one_hot 0 _ _)
]

open_marked-state : (e : KeyEvent) (st : KeyState) (i : Option ℕ) → (open_marked e st i).state ≡ st
unfolding open_marked
open_marked-state e st none = refl
open_marked-state e st (some i) = ground arith

finish_chord-rows :
    (st : KeyState) (target : Option Chord) → (finish_chord st target).state.rows ≡ st.rows
unfolding finish_chord
finish_chord-rows st none = refl
finish_chord-rows st (some target) = refl

plain_key-IsTidy : (e : KeyEvent) (st : KeyState) → IsTidy st → IsTidy (plain_key e st).state
unfolding plain_key
plain_key-IsTidy e st h = ground (
  arith,
  move_row-IsTidy (e.key === codes "j") st,
  marked_count-clear_rows st.rows,
  open_marked-state e st (marked_index 0 st.rows),
)

-- Whatever the key, at most one row that the shortcuts see is marked afterwards, if it was so before.
pub on_key-IsTidy :
    (lower : Str → Str) (chords : ChordMap) (e : KeyEvent) (st : KeyState)
    → IsTidy st
    → IsTidy (on_key lower chords e st).state
unfolding on_key
on_key-IsTidy lower chords e st h =
    ground (arith, plain_key-IsTidy e st h, finish_chord-rows st (get_chord chords (lower e.key)))

-- A key that no guard stops and that ends no chord.
pub record IsPlain (lower : Str → Str) (e : KeyEvent) (st : KeyState) : Type 0 where
  pub no_palette : is_palette_key lower e ≡ false
  pub heeded : is_ignored lower e ≡ false
  pub no_dialog : e.dialog_open ≡ false
  pub no_chord : ltb (e.now - st.chord_at) 1200 ≡ false

-- Where one step from row `c` of `n` leads.
abbrev pub OneStep : Bool → ℕ → ℕ → ℕ → Type 0
OneStep true n c to = (to ≡ c + 1) ⊎ (c + 1 ≡ n) × (to ≡ c)
OneStep false n c to = (to + 1 ≡ c) ⊎ (c ≡ 0) × (to ≡ 0)

next_row-OneStep : (down : Bool) (n c : ℕ) → c < n → OneStep down n c (next_row down n (some c))
unfolding next_row
next_row-OneStep true n c h = ground arith
next_row-OneStep false n c h = ground arith

next_row-lt : (down : Bool) (n : ℕ) (from : Option ℕ) → 0 < n → next_row down n from < n
unfolding next_row
next_row-lt down n none h = h
next_row-lt down n (some c) h = omega arith

marked_index-lt :
    (i : ℕ) (rows : List Row) (c : ℕ) → marked_index i rows ≡ some c → c < i + length rows
unfolding marked_index
marked_index-lt i [] c e = cc
marked_index-lt i (r ∷ rows) c e = ground (arith, marked_index-lt (suc i) rows c)

on_key-move :
    (lower : Str → Str) (chords : ChordMap) (e : KeyEvent) (st : KeyState) (down : Bool)
    → IsPlain lower e st
    → e.key ≡ (if down then codes "j" else codes "k")
    → 0 < length (nav_rows st.rows)
    → on_key lower chords e st ≡ record {
      state =
          let to =
            next_row down
              (length (nav_rows st.rows))
              (or_else (marked_index 0 (nav_rows st.rows)) st.active) in
          record st { active = some to; rows = set_active_row 0 st.rows to };
      prevented = true;
      effect = none;
    }
unfolding on_key plain_key move_row ◌===◌
on_key-move lower chords e st true p key h =
    rw (p.no_palette, p.heeded, p.no_dialog, p.no_chord, key) (ground arith)
on_key-move lower chords e st false p key h =
    rw (p.no_palette, p.heeded, p.no_dialog, p.no_chord, key) (ground arith)

-- With rows to move over, j and k mark exactly one row, in range, and remember it; the default of the
-- browser is prevented.
pub on_key_moves :
    (lower : Str → Str) (chords : ChordMap) (e : KeyEvent) (st : KeyState) (down : Bool)
    → IsPlain lower e st
    → e.key ≡ (if down then codes "j" else codes "k")
    → 0 < length (nav_rows st.rows)
    → (to : ℕ) × (to < length (nav_rows st.rows))
      × ((on_key lower chords e st).state.active ≡ some to)
      × (marks (on_key lower chords e st).state.rows ≡ one_hot 0 (length (nav_rows st.rows)) to)
      × ((on_key lower chords e st).prevented ≡ true)
on_key_moves lower chords e st down plain key some_rows =
    let n = length (nav_rows st.rows) in
    let from = or_else (marked_index 0 (nav_rows st.rows)) st.active in
    let moved = on_key-move lower chords e st down plain key some_rows in
    (
      next_row down n from,
      next_row-lt down n from some_rows,
      ap (λ r. r.state.active) moved,
      ap (λ r. marks r.state.rows) moved ∙ marks-set_active_row 0 st.rows (next_row down n from),
      ap (λ r. r.prevented) moved,
    )

-- With a key that no guard stops and outside a chord: from a marked row, j moves one row down and k
-- one row up, and marks that row alone; at the last and at the first row they stay.
pub on_key_steps :
    (lower : Str → Str) (chords : ChordMap) (e : KeyEvent) (st : KeyState) (down : Bool) (c : ℕ)
    → IsPlain lower e st
    → e.key ≡ (if down then codes "j" else codes "k")
    → marked_index 0 (nav_rows st.rows) ≡ some c
    → (to : ℕ) × OneStep down (length (nav_rows st.rows)) c to
      × ((on_key lower chords e st).state.active ≡ some to)
      × (marks (on_key lower chords e st).state.rows ≡ one_hot 0 (length (nav_rows st.rows)) to)
on_key_steps lower chords e st down c plain key marked =
    let n = length (nav_rows st.rows) in
    let c_lt = marked_index-lt 0 (nav_rows st.rows) c marked in
    let from = or_else (marked_index 0 (nav_rows st.rows)) st.active in
    let moved = on_key-move lower chords e st down plain key (omega (arith, c_lt)) in
    (
      next_row down n from,
      rw marked (next_row-OneStep down n c (omega (arith, c_lt))),
      ap (λ r. r.state.active) moved,
      ap (λ r. marks r.state.rows) moved ∙ marks-set_active_row 0 st.rows (next_row down n from),
    )
