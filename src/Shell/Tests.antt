-- ===== src/Shell/Tests.antt =====
-- A theme that outlives a page load, one that does not, and the initials of a user.
use restitch_gateway.Prelude.{◌≡◌, refl, true, false, none, some, List, [], ◌∷◌, codes, ◌===◌}
use restitch_gateway.Text.{trim, trim_start, is_space, push_front}
use restitch_gateway.Access.{can, is_role, role_index}
use restitch_gateway.Shell.{
  dark, system, Storage, ShellEvent, chose_theme, system_changed, pressed_sidebar, reloaded, get_in,
  set_in, get_item, set_item, read_stored, read_collapsed, is_dark, load_page, set_theme,
  change_system, set_collapsed, shell_step, shell_run, initials, split_breaks, is_break, nav,
}
use restitch_gateway.Shell.Painted.{IsPainted, shell_run-IsPainted}
use restitch_gateway.Shell.Settings.{replay, settings_of, shell_run_refines}

abbrev working : Storage
working = record { readable = true; writable = true; items = [] }

-- A storage that is full can be read and not written.
abbrev full : Storage
full = record working { writable = false }

abbrev events : List ShellEvent
events = chose_theme dark ∷ pressed_sidebar ∷ reloaded ∷ system_changed false ∷ []

shell_run_refines_example :
    settings_of (shell_run events (load_page working true))
    ≡ replay events (settings_of (load_page working true))
shell_run_refines_example = shell_run_refines working true events refl refl

kept :
    settings_of (shell_run events (load_page working true))
    ≡ record { theme = dark; collapsed = true }
unfolding shell_run shell_step set_theme set_collapsed change_system load_page get_item set_item
    get_in set_in read_stored read_collapsed is_dark ◌===◌
kept = refl

-- The choice lasts for the page only.
lost : (shell_run events (load_page full true)).theme ≡ system
unfolding shell_run shell_step set_theme set_collapsed change_system load_page get_item set_item
    get_in set_in read_stored read_collapsed is_dark ◌===◌
lost = refl

shell_run-IsPainted_example : IsPainted (shell_run events (load_page full true))
shell_run-IsPainted_example = shell_run-IsPainted full true events

two_initials : initials (λ s. s) (codes "ann.lee@x.org") none ≡ codes "al"
unfolding initials split_breaks is_break is_space push_front
two_initials = refl

named_initials : initials (λ s. s) (codes "a@x") (some (codes " Mo ")) ≡ codes "M"
unfolding initials split_breaks is_break is_space push_front trim trim_start
named_initials = refl

viewer_nav : (nav (some (codes "viewer"))).has_settings ≡ false
unfolding nav can is_role role_index ◌===◌
viewer_nav = refl
