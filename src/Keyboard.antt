-- ===== src/Keyboard.antt =====
-- studio/src/app/keyboard.tsx: the keyboard shortcuts. The page is the list of its rows in document
-- order, and a handler returns the new state, whether it called preventDefault, and its effect.
pub mod Rows
pub mod Chords
pub mod Handler
pub mod Sheet
pub mod Tests
use restitch_gateway.Prelude.{
  ℕ, zero, suc, ◌+◌, ◌-◌, min, Bool, true, false, not, ◌&&◌, ◌||◌, Option, none, some, List, [],
  ◌∷◌, ◌++◌, Str, codes, ◌===◌, ◌==◌, ltb, if◌then◌else◌, includes, filter, length,
}
use restitch_gateway.Access.{Role, can, NavItem, EnvPage, nav_items, settings_items, env_pages}

-- Where a key event goes: `closest` and the tag are read off the element.
pub record Target : Type 0 where
  pub is_element : Bool
  pub is_editable : Bool
  pub in_editor : Bool
  pub tag : Str
  pub input_type : Str
  pub in_link : Bool

abbrev pub click_types : List Str
click_types =
    codes "checkbox" ∷ codes "radio" ∷ codes "button" ∷ codes "submit" ∷ codes "reset" ∷ []

unfoldable pub is_typing : Target → Bool
is_typing t =
    if not t.is_element
    then false
    else if t.is_editable || t.in_editor
    then true
    else if t.tag === codes "TEXTAREA" || t.tag === codes "SELECT"
    then true
    else if t.tag === codes "INPUT"
    then not (includes click_types t.input_type)
    else false

-- An element that the row selector matches.
pub record Row : Type 0 where
  pub visible : Bool
  pub skipped : Bool
  pub marked : Bool

unfoldable pub is_nav : Row → Bool
is_nav r = r.visible && not r.skipped

unfoldable pub nav_rows : List Row → List Row
nav_rows rows = filter is_nav rows

unfoldable pub clear_rows : List Row → List Row
clear_rows [] = []
clear_rows (r ∷ rows) = (if is_nav r then record r { marked = false } else r) ∷ clear_rows rows

-- Unmarks the rows and marks the one at `index`; `i` counts the rows so far.
unfoldable pub set_active_row : ℕ → List Row → ℕ → List Row
set_active_row i [] index = []
set_active_row i (r ∷ rows) index =
    (if is_nav r then record r { marked = i == index } else r)
    ∷ set_active_row (if is_nav r then suc i else i) rows index

-- `findIndex` of the marked row.
unfoldable pub marked_index : ℕ → List Row → Option ℕ
marked_index i [] = none
marked_index i (r ∷ rows) = if r.marked then some i else marked_index (suc i) rows

pub record Chord : Type 0 where
  pub to : Str
  pub env : Option Str

abbrev pub ChordMap : Type 0
ChordMap = List (Str × Chord)

unfoldable pub set_chord : ChordMap → Str → Chord → ChordMap
set_chord [] k v = (k, v) ∷ []
set_chord ((j, w) ∷ m) k v = if j === k then (j, v) ∷ m else (j, w) ∷ set_chord m k v

unfoldable pub get_chord : ChordMap → Str → Option Chord
get_chord [] k = none
get_chord ((j, v) ∷ m) k = if j === k then some v else get_chord m k

unfoldable pub add_nav_chord : Option Str → ChordMap → NavItem → Option Str → ChordMap
add_nav_chord role out i none = out
add_nav_chord role out i (some []) = out
add_nav_chord role out i (some (c ∷ chord)) =
    if can role i.min then set_chord out (c ∷ chord) (record { to = i.to; env = none }) else out

unfoldable pub add_nav_chords : Option Str → ChordMap → List NavItem → ChordMap
add_nav_chords role out [] = out
add_nav_chords role out (i ∷ items) = add_nav_chords role (add_nav_chord role out i i.chord) items

unfoldable pub add_page_chords : Option Str → Str → ChordMap → List EnvPage → ChordMap
add_page_chords role env out [] = out
add_page_chords role env out (p ∷ pages) =
    add_page_chords role env
      (if can role p.min then set_chord out p.chord (record { to = p.to; env = some env }) else out)
      pages

-- An empty or missing environment adds no chord.
unfoldable pub add_env_chords : Option Str → Option Str → ChordMap → ChordMap
add_env_chords role none out = out
add_env_chords role (some []) out = out
add_env_chords role (some (c ∷ env)) out = add_page_chords role (c ∷ env) out env_pages

unfoldable pub chord_targets : Option Str → Option Str → ChordMap
chord_targets role env =
    add_env_chords role env (add_nav_chords role [] (nav_items ++ settings_items))

pub record KeyEvent : Type 0 where
  pub key : Str
  pub meta : Bool
  pub ctrl : Bool
  pub alt : Bool
  pub default_prevented : Bool
  pub target : Target
  -- A dialog is open in the document.
  pub dialog_open : Bool
  -- `Date.now()`, in milliseconds.
  pub now : ℕ

pub data Effect : Type 0 where
  toggle_palette : Effect
  open_shortcuts : Effect
  navigate : Chord → Effect
  open_row : ℕ → Effect

-- `active` is the ref of the last row; `none` is -1.
pub record KeyState : Type 0 where
  pub chord_at : ℕ
  pub active : Option ℕ
  pub rows : List Row

pub record KeyResult : Type 0 where
  pub state : KeyState
  pub prevented : Bool
  pub effect : Option Effect

abbrev pub nothing : KeyState → KeyResult
nothing st = record { state = st; prevented = false; effect = none }

-- The second key of a chord. The chord ends, whether or not it has a page.
unfoldable pub finish_chord : KeyState → Option Chord → KeyResult
finish_chord st none = nothing (record st { chord_at = 0 })
finish_chord st (some target) = record {
  state = record st { chord_at = 0 };
  prevented = true;
  effect = some (navigate target);
}

abbrev pub or_else : Option ℕ → Option ℕ → Option ℕ
or_else none b = b
or_else (some a) b = some a

-- The row to go to among `n`, from the current one if there is one.
unfoldable pub next_row : Bool → ℕ → Option ℕ → ℕ
next_row down n none = 0
next_row down n (some from) = min (if down then from + 1 else from - 1) (n - 1)

unfoldable pub move_row : Bool → KeyState → KeyResult
move_row down st =
    let rows = nav_rows st.rows in
    let to = next_row down (length rows) (or_else (marked_index 0 rows) st.active) in
    if length rows == 0 then nothing st else record {
      state = record st { active = some to; rows = set_active_row 0 st.rows to };
      prevented = true;
      effect = none;
    }

unfoldable pub open_marked : KeyEvent → KeyState → Option ℕ → KeyResult
open_marked e st none = nothing st
open_marked e st (some i) =
    if e.target.is_element && e.target.in_link
    then nothing st
    else record { state = st; prevented = true; effect = some (open_row i) }

unfoldable pub plain_key : KeyEvent → KeyState → KeyResult
plain_key e st =
    if e.key === codes "g"
    then nothing (record st { chord_at = e.now })
    else if e.key === codes "?"
    then record { state = st; prevented = true; effect = some open_shortcuts }
    else if e.key === codes "j" || e.key === codes "k"
    then move_row (e.key === codes "j") st
    else if e.key === codes "Enter" || e.key === codes "o"
    then open_marked e st (marked_index 0 st.rows)
    else if e.key === codes "Escape"
    then nothing (record st { active = none; rows = clear_rows st.rows })
    else nothing st

-- `toLowerCase` is `lower`.
module _ (lower : Str → Str) where
  unfoldable pub is_palette_key : KeyEvent → Bool
  is_palette_key e = (e.meta || e.ctrl) && (not e.alt && lower e.key === codes "k")

  unfoldable pub is_ignored : KeyEvent → Bool
  is_ignored e = e.default_prevented || e.meta || e.ctrl || e.alt || is_typing e.target

  unfoldable pub on_key : ChordMap → KeyEvent → KeyState → KeyResult
  on_key chords e st =
      if is_palette_key e
      then record { state = st; prevented = true; effect = some toggle_palette }
      else if is_ignored e
      then nothing st
      else if e.dialog_open
      then nothing st
      else if ltb (e.now - st.chord_at) 1200
      then finish_chord st (get_chord chords (lower e.key))
      else plain_key e st

-- A new path forgets the row.
unfoldable pub on_path_change : KeyState → KeyState
on_path_change st = record st { active = none }
