-- ===== src/Keyboard/Handler.antt =====
-- Chords of two keys, and the pages that they lead to.
use restitch_gateway.Prelude.{
  ◌+◌, ◌<◌, ◌≡◌, refl, sym, ◌∙◌, ap, false, Option, none, some, inl, inr, ◌⊎◌, arith, Str, codes,
  ◌===◌, Option-cases,
}
use restitch_gateway.Keyboard.{
  KeyEvent, KeyState, Effect, navigate, ChordMap, Chord, marked_index, get_chord, chord_targets,
  on_key, plain_key, finish_chord, open_marked, move_row, is_palette_key, is_ignored,
}
use restitch_gateway.Keyboard.Rows.{IsPlain}
use restitch_gateway.Keyboard.Chords.{MaySee, chord_targets-MaySee}

-- `g` and then another key within 1.2 seconds (the clock does not go back), neither of which a
-- guard stops: the second key goes to the page of its chord, or does nothing if it has none. The
-- chord is over either way, and the rows are as before.
pub on_key_chord :
    (lower : Str → Str) (chords : ChordMap) (e e' : KeyEvent) (st : KeyState)
    → IsPlain lower e st
    → e.key ≡ codes "g"
    → is_palette_key lower e' ≡ false
    → is_ignored lower e' ≡ false
    → e'.dialog_open ≡ false
    → e'.now < e.now + 1200
    → on_key lower chords e' (on_key lower chords e st).state
      ≡ finish_chord st (get_chord chords (lower e'.key))
unfolding on_key plain_key ◌===◌ finish_chord
on_key_chord lower chords e e' st p g no_palette heeded no_dialog soon =
    rw (p.no_palette, p.heeded, p.no_dialog, p.no_chord, g, no_palette, heeded, no_dialog)
      (elim (Option-cases (get_chord chords (lower e'.key))) [
        | inl no_page ↦ ground (arith, no_page)
        | inr (c, page) ↦ ground (arith, page)
      ])

abbrev leaves_for : Option Effect → Option Chord
leaves_for none = none
leaves_for (some (navigate c)) = some c
leaves_for (some _) = none

plain_key-stays : (e : KeyEvent) (st : KeyState) → leaves_for (plain_key e st).effect ≡ none
unfolding plain_key move_row open_marked
plain_key-stays e st = elim (Option-cases (marked_index 0 st.rows)) [
  | inl m ↦ ground (arith, m)
  | inr (i, m) ↦ ground (arith, m)
]

finish_chord-leaves :
    (st : KeyState) (target : Option Chord) → leaves_for (finish_chord st target).effect ≡ target
unfolding finish_chord
finish_chord-leaves st none = refl
finish_chord-leaves st (some c) = refl

on_key-leaves :
    (lower : Str → Str) (chords : ChordMap) (e : KeyEvent) (st : KeyState)
    → (leaves_for (on_key lower chords e st).effect ≡ none)
      ⊎ (leaves_for (on_key lower chords e st).effect ≡ get_chord chords (lower e.key))
unfolding on_key
on_key-leaves lower chords e st =
    ground (arith, plain_key-stays e st, finish_chord-leaves st (get_chord chords (lower e.key)))

-- The handler leaves only for a page of the tables of nav.ts that the user's role may see, by the least
-- role that the table has for it: a page of the navigation, or one of the environment that is open.
pub on_key-MaySee :
    (lower : Str → Str) (role env : Option Str) (e : KeyEvent) (st : KeyState) (c : Chord)
    → (on_key lower (chord_targets role env) e st).effect ≡ some (navigate c)
    → MaySee role env c
on_key-MaySee lower role env e st c h = elim (on_key-leaves lower (chord_targets role env) e st) [
  | inl stays ↦ absurd (cc (ap leaves_for h, stays))
  | inr page ↦ chord_targets-MaySee role env (lower e.key) c (sym page ∙ ap leaves_for h)
]
