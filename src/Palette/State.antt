-- ===== src/Palette/State.antt =====
-- studio/src/app/command-palette.tsx: the component CommandPalette, its state and its handlers. The
-- prop `open` is part of the state, and `onClose` clears it.
use restitch_gateway.Prelude.{
  ℕ, ◌+◌, ◌-◌, ◌%◌, min, Bool, true, false, not, ◌&&◌, ◌||◌, Option, none, some, List, [], Str,
  codes, ◌===◌, ◌==◌, if◌then◌else◌, length, get_elem?,
}
use restitch_gateway.Palette.{
  Action, new_environment, new_resource, show_shortcuts, set_theme, sign_out, go, go_resource, Item,
}

pub record PaletteState : Type 0 where
  pub is_open : Bool
  -- The dialog element is shown.
  pub dialog_open : Bool
  pub query : Str
  pub active : ℕ
  pub rendered : Bool
  pub creating_env : Bool
  pub resource_env : Option Str

-- The index of the selected entry among `n`.
unfoldable pub current : PaletteState → ℕ → ℕ
current st n = min st.active (n - 1)

-- `if (open && !rendered) setRendered(true)`, on each render.
unfoldable pub on_render : PaletteState → PaletteState
on_render st = if st.is_open && not st.rendered then record st { rendered = true } else st

-- The effect on `open`.
unfoldable pub on_open_change : PaletteState → PaletteState
on_open_change st =
    if st.is_open && not st.dialog_open
    then record st { query = []; active = 0; dialog_open = true }
    else if not st.is_open && st.dialog_open
    then record st { dialog_open = false }
    else st

-- The timeout after a close; opening again clears it.
unfoldable pub on_closed_timeout : PaletteState → PaletteState
on_closed_timeout st = if st.is_open then st else record st { rendered = false }

unfoldable pub on_close : PaletteState → PaletteState
on_close st = record st { is_open = false }

-- The part of `run` that is state of the palette; the rest is left to the caller.
unfoldable pub run_action : Action → PaletteState → PaletteState
run_action new_environment st = record st { creating_env = true }
run_action (new_resource env) st = record st { resource_env = some env }
run_action show_shortcuts st = st
run_action (set_theme name) st = st
run_action sign_out st = st
run_action (go to env) st = st
run_action (go_resource env kind name) st = st

pub record Outcome : Type 0 where
  pub state : PaletteState
  pub prevented : Bool
  pub ran : Option Action

abbrev pub stay : PaletteState → Bool → Outcome
stay st prevented = record { state = st; prevented = prevented; ran = none }

unfoldable pub choose : PaletteState → Bool → Option Item → Outcome
choose st prevented none = stay st prevented
choose st prevented (some it) = record {
  state = run_action it.command.run (on_close st);
  prevented = prevented;
  ran = some it.command.run;
}

-- `(current + (down ? 1 : -1) + n) % n`, for `n` above 0.
unfoldable pub step_index : Bool → ℕ → ℕ → ℕ
step_index down i n = (if down then i + 1 + n else i + n - 1) % n

unfoldable pub is_down : Str → Bool → Bool
is_down key ctrl = key === codes "ArrowDown" || ctrl && key === codes "n"

unfoldable pub is_up : Str → Bool → Bool
is_up key ctrl = key === codes "ArrowUp" || ctrl && key === codes "p"

unfoldable pub move : Bool → PaletteState → ℕ → PaletteState
move down st n = if n == 0 then st else record st { active = step_index down (current st n) n }

unfoldable pub on_key_down : Str → Bool → List Item → PaletteState → Outcome
on_key_down key ctrl flat st =
    if is_down key ctrl || is_up key ctrl
    then stay (move (is_down key ctrl) st (length flat)) true
    else if key === codes "Enter"
    then choose st true (get_elem? flat (current st (length flat)))
    else stay st false

unfoldable pub on_query : Str → PaletteState → PaletteState
on_query text st = record st { query = text; active = 0 }

unfoldable pub on_mouse_move : ℕ → PaletteState → PaletteState
on_mouse_move i st = if st.active == i then st else record st { active = i }

unfoldable pub on_click : ℕ → List Item → PaletteState → Outcome
on_click i flat st = choose st false (get_elem? flat i)

unfoldable pub close_new_environment : PaletteState → PaletteState
close_new_environment st = record st { creating_env = false }

unfoldable pub close_new_resource : PaletteState → PaletteState
close_new_resource st = record st { resource_env = none }
