-- ===== src/Keyboard/Tests.antt =====
-- Runs of the shortcuts on a page of three rows, the second of them hidden.
use restitch_gateway.Prelude.{
  ℕ, ◌≡◌, refl, Bool, true, false, ◌||◌, none, some, [], ◌∷◌, Str, codes, ◌===◌, length, arith,
}
use restitch_gateway.Access.{can, is_role, role_index}
use restitch_gateway.Keyboard.{
  Target, Row, KeyEvent, KeyState, Chord, ChordMap, set_chord, get_chord, add_nav_chord,
  add_nav_chords, add_page_chords, add_env_chords, chord_targets, is_typing, is_nav, nav_rows,
  marked_index, finish_chord, is_palette_key, is_ignored, on_key, navigate,
}
use restitch_gateway.Keyboard.Rows.{marks, IsTidy, IsPlain}
use restitch_gateway.Keyboard.Chords.{MaySee}
use restitch_gateway.Keyboard.Handler.{on_key-MaySee}

abbrev body : Target
body = record {
  is_element = true;
  is_editable = false;
  in_editor = false;
  tag = codes "BODY";
  input_type = [];
  in_link = false;
}

abbrev field : Target
field = record body { tag = codes "INPUT"; input_type = codes "text" }

abbrev press : Str → ℕ → Target → KeyEvent
press key now target = record {
  key = key;
  meta = false;
  ctrl = false;
  alt = false;
  default_prevented = false;
  target = target;
  dialog_open = false;
  now = now;
}

abbrev row : Bool → Row
row marked = record { visible = true; skipped = false; marked = marked }

abbrev page : KeyState
page = record {
  chord_at = 0;
  active = none;
  rows = row true ∷ record { visible = false; skipped = false; marked = false } ∷ row false ∷ [];
}

abbrev same : Str → Str
same s = s

abbrev chords : ChordMap
chords = chord_targets (some (codes "viewer")) (some (codes "prod"))

abbrev draft : Chord
draft = record { to = codes "/environments/$env/draft"; env = some (codes "prod") }

draft_chord : get_chord chords (codes "d") ≡ some draft
unfolding get_chord chord_targets add_env_chords add_page_chords add_nav_chords add_nav_chord
    set_chord can is_role role_index ◌===◌
draft_chord = refl

-- A viewer has no chord to the tokens page.
no_tokens_chord : get_chord chords (codes "t") ≡ none
unfolding get_chord chord_targets add_env_chords add_page_chords add_nav_chords add_nav_chord
    set_chord can is_role role_index ◌===◌
no_tokens_chord = refl

tidy : IsTidy page
unfolding marks nav_rows is_nav
tidy = omega arith

heeds : (key : Str) → is_ignored same (press key 5000 body) ≡ false
unfolding is_ignored is_typing is_palette_key ◌===◌
heeds key = refl

plain : (key : Str) → IsPlain same (press key 5000 body) page
unfolding is_palette_key
plain key = record { no_palette = refl; heeded = heeds key; no_dialog = refl; no_chord = refl }

two_rows : length (nav_rows page.rows) ≡ 2
unfolding nav_rows is_nav
two_rows = refl

first_marked : marked_index 0 (nav_rows page.rows) ≡ some 0
unfolding marked_index nav_rows is_nav
first_marked = refl

types : (false || false || false || false || is_typing field || false) ≡ true
unfolding is_typing ◌===◌
types = refl

no_palette_d : is_palette_key same (press (codes "d") 5900 body) ≡ false
unfolding is_palette_key
no_palette_d = refl

heeds_d : is_ignored same (press (codes "d") 5900 body) ≡ false
unfolding is_ignored is_typing ◌===◌
heeds_d = refl

leaves :
    (on_key same
      (chord_targets (some (codes "viewer")) (some (codes "prod")))
      (press (codes "d") 100 body)
      page).effect
    ≡ some (navigate draft)
unfolding on_key finish_chord is_palette_key is_ignored is_typing get_chord chord_targets
    add_env_chords add_page_chords add_nav_chords add_nav_chord set_chord can is_role role_index
    ◌===◌
leaves = refl

on_key-MaySee_example : MaySee (some (codes "viewer")) (some (codes "prod")) draft
on_key-MaySee_example =
    on_key-MaySee same (some (codes "viewer")) (some (codes "prod")) (press (codes "d") 100 body)
      page draft leaves
