-- ===== src/Shell.antt =====
-- studio/src/app/app-shell.tsx and studio/src/lib/theme.tsx: the shell around the pages, the theme, and
-- what both keep in the browser's storage. Widths, icons and the pill that slides are left out.
pub mod Settings
pub mod Painted
pub mod Tests
use restitch_gateway.Prelude.{
  ℕ, Bool, true, false, not, ◌&&◌, ◌||◌, Option, none, some, List, [], ◌∷◌, ◌++◌, Str, codes, ◌===◌,
  ◌==◌, if◌then◌else◌, filter, any, map,
}
use restitch_gateway.Text.{trim, is_space, push_front}
use restitch_gateway.Access.{NavItem, nav_items, settings_items, can}

pub data Theme : Type 0 where
  dark light system : Theme

abbrev pub theme_text : Theme → Str
theme_text dark = codes "dark"
theme_text light = codes "light"
theme_text system = codes "system"

abbrev pub same_theme : Theme → Theme → Bool
same_theme a b = theme_text a === theme_text b

-- The options of ThemeSwitch, with the one that is checked.
unfoldable pub theme_switch : Theme → List (Theme × Bool)
theme_switch theme = map (λ t. (t, same_theme theme t)) (light ∷ dark ∷ system ∷ [])

-- `localStorage`: reading throws where it is not readable, and writing where it is not writable.
pub record Storage : Type 0 where
  pub readable : Bool
  pub writable : Bool
  pub items : List (Str × Str)

unfoldable pub get_in : List (Str × Str) → Str → Option Str
get_in [] key = none
get_in ((k, v) ∷ items) key = if k === key then some v else get_in items key

unfoldable pub set_in : List (Str × Str) → Str → Str → List (Str × Str)
set_in [] key value = (key, value) ∷ []
set_in ((k, v) ∷ items) key value =
    if k === key then (k, value) ∷ items else (k, v) ∷ set_in items key value

-- `getItem`, with the exception taken for a missing item, as both callers do.
unfoldable pub get_item : Storage → Str → Option Str
get_item s key = if s.readable then get_in s.items key else none

-- `setItem`; the callers ignore its exception.
unfoldable pub set_item : Storage → Str → Str → Storage
set_item s key value = if s.writable then record s { items = set_in s.items key value } else s

abbrev pub theme_key : Str
theme_key = codes "restitch-theme"

abbrev pub collapsed_key : Str
collapsed_key = codes "restitch-nav-collapsed"

abbrev pub theme_of : Option Str → Theme
theme_of none = system
theme_of (some v) =
    if v === codes "dark" then dark else if v === codes "light" then light else system

-- `readStored` of theme.tsx.
unfoldable pub read_stored : Storage → Theme
read_stored s = theme_of (get_item s theme_key)

abbrev pub is_one : Option Str → Bool
is_one none = false
is_one (some v) = v === codes "1"

unfoldable pub read_collapsed : Storage → Bool
read_collapsed s = is_one (get_item s collapsed_key)

-- Whether `apply` makes the page dark, for the preference of the system.
unfoldable pub is_dark : Theme → Bool → Bool
is_dark dark prefers = true
is_dark light prefers = false
is_dark system prefers = prefers

-- `page_dark` is whether the root element has the class dark; it has the class light otherwise.
pub record Shell : Type 0 where
  pub theme : Theme
  pub page_dark : Bool
  pub prefers_dark : Bool
  pub storage : Storage
  pub collapsed : Bool
  pub menu_open : Bool
  pub palette_open : Bool
  pub sheet_open : Bool

-- A page load: the states are read from the storage, and the effect applies the theme.
unfoldable pub load_page : Storage → Bool → Shell
load_page storage prefers = record {
  theme = read_stored storage;
  page_dark = is_dark (read_stored storage) prefers;
  prefers_dark = prefers;
  storage = storage;
  collapsed = read_collapsed storage;
  menu_open = false;
  palette_open = false;
  sheet_open = false;
}

pub data ShellEvent : Type 0 where
  chose_theme : Theme → ShellEvent
  system_changed : Bool → ShellEvent
  pressed_sidebar pressed_menu followed_link : ShellEvent
  toggled_palette opened_palette closed_palette opened_shortcuts closed_shortcuts : ShellEvent
  reloaded : ShellEvent

-- `setTheme`, and the effect that runs if the theme has changed.
unfoldable pub set_theme : Theme → Shell → Shell
set_theme t st = record st {
  storage = set_item st.storage theme_key (theme_text t);
  theme = t;
  page_dark = if same_theme st.theme t then st.page_dark else is_dark t st.prefers_dark;
}

-- The page listens to the system only while the theme is that of the system.
unfoldable pub change_system : Bool → Shell → Shell
change_system prefers st = record st {
  prefers_dark = prefers;
  page_dark = if same_theme st.theme system then is_dark system prefers else st.page_dark;
}

unfoldable pub set_collapsed : Bool → Shell → Shell
set_collapsed v st = record st {
  collapsed = v;
  storage = set_item st.storage collapsed_key (if v then codes "1" else codes "0");
}

unfoldable pub shell_step : ShellEvent → Shell → Shell
shell_step (chose_theme t) st = set_theme t st
shell_step (system_changed prefers) st = change_system prefers st
shell_step pressed_sidebar st = set_collapsed (not st.collapsed) st
shell_step pressed_menu st = record st { menu_open = not st.menu_open }
shell_step followed_link st = record st { menu_open = false }
shell_step toggled_palette st = record st { palette_open = not st.palette_open }
shell_step opened_palette st = record st { palette_open = true }
shell_step closed_palette st = record st { palette_open = false }
shell_step opened_shortcuts st = record st { palette_open = false; sheet_open = true }
shell_step closed_shortcuts st = record st { sheet_open = false }
shell_step reloaded st = load_page st.storage st.prefers_dark

unfoldable pub shell_run : List ShellEvent → Shell → Shell
shell_run [] st = st
shell_run (e ∷ es) st = shell_run es (shell_step e st)

-- Nav: the links of the two groups, and whether the second has a heading.
pub record NavView : Type 0 where
  pub main : List NavItem
  pub has_settings : Bool
  pub settings : List NavItem

abbrev nav_links : Option Str → List NavItem → List NavItem
nav_links role items = filter (λ item. can role item.min) items

unfoldable pub nav : Option Str → NavView
nav role = record {
  main = nav_links role nav_items;
  has_settings = any (λ item. can role item.min) settings_items;
  settings = nav_links role settings_items;
}

-- The class [\s@._-].
unfoldable pub is_break : ℕ → Bool
is_break c = is_space c || c == b'@' || c == b'.' || c == b'_' || c == b'-'

-- `src.split(/[\s@._-]+/)` up to empty parts, which the filter drops.
unfoldable pub split_breaks : Str → List Str
split_breaks [] = [] ∷ []
split_breaks (c ∷ s) =
    let rest = split_breaks s in if is_break c then [] ∷ rest else push_front c rest

abbrev is_filled : Str → Bool
is_filled [] = false
is_filled (c ∷ s) = true

abbrev first_unit : Str → Str
first_unit [] = []
first_unit (c ∷ s) = c ∷ []

abbrev first_units : List Str → Str
first_units [] = []
first_units (a ∷ []) = first_unit a
first_units (a ∷ b ∷ parts) = first_unit a ++ first_unit b

abbrev or_question : Str → Str
or_question [] = codes "?"
or_question (c ∷ s) = c ∷ s

abbrev name_or : Str → Str → Str
name_or email [] = email
name_or email (c ∷ name) = c ∷ name

abbrev source_of : Str → Option Str → Str
source_of email none = email
source_of email (some name) = name_or email (trim name)

-- `upper` is `toUpperCase`.
unfoldable pub initials : (Str → Str) → Str → Option Str → Str
initials upper email name =
    or_question (upper (first_units (filter is_filled (split_breaks (source_of email name)))))
