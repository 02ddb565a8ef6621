-- ===== src/Shell/Settings.antt =====
-- What the shell keeps over page loads: the theme and the state of the sidebar.
use restitch_gateway.Prelude.{
  ◌≡◌, refl, ap, ◌∙◌, Bool, true, false, not, some, List, [], ◌∷◌, Str, codes, ◌===◌, ===_iff,
  if◌then◌else◌, arith,
}
use restitch_gateway.Shell.{
  Theme, dark, light, system, theme_text, theme_of, theme_key, collapsed_key, is_one, Storage,
  get_in, set_in, get_item, set_item, read_stored, read_collapsed, Shell, ShellEvent, chose_theme,
  system_changed, pressed_sidebar, pressed_menu, followed_link, toggled_palette, opened_palette,
  closed_palette, opened_shortcuts, closed_shortcuts, reloaded, load_page, set_theme, change_system,
  set_collapsed, shell_step, shell_run,
}

-- The settings of a user, as if they were kept in a variable that page loads do not touch.
pub record Settings : Type 0 where
  pub theme : Theme
  pub collapsed : Bool

unfoldable pub follow : ShellEvent → Settings → Settings
follow (chose_theme t) s = record s { theme = t }
follow pressed_sidebar s = record s { collapsed = not s.collapsed }
follow _ s = s

unfoldable pub replay : List ShellEvent → Settings → Settings
replay [] s = s
replay (e ∷ es) s = replay es (follow e s)

abbrev pub settings_of : Shell → Settings
settings_of st = record { theme = st.theme; collapsed = st.collapsed }

abbrev pub stored : Storage → Settings
stored s = record { theme = read_stored s; collapsed = read_collapsed s }

get-set :
    (items : List (Str × Str)) (key value j : Str)
    → get_in (set_in items key value) j ≡ (if key === j then some value else get_in items j)
unfolding get_in set_in
get-set [] key value j = ground arith
get-set ((k, v) ∷ items) key value j =
    ground (arith, get-set items key value j, ===_iff k key, ===_iff key j, ===_iff k j)

abbrev Works : Storage → Type 0
Works s = (s.readable ≡ true) × (s.writable ≡ true)

get_item-set_item :
    (s : Storage) (key value j : Str)
    → Works s
    → get_item (set_item s key value) j ≡ (if key === j then some value else get_item s j)
unfolding get_item set_item
get_item-set_item s key value j (r, w) = ground (arith, r, w, get-set s.items key value j)

theme_of_text : (t : Theme) → theme_of (some (theme_text t)) ≡ t
unfolding ◌===◌
theme_of_text dark = refl
theme_of_text light = refl
theme_of_text system = refl

one_of : (v : Bool) → is_one (some (if v then codes "1" else codes "0")) ≡ v
unfolding ◌===◌
one_of true = refl
one_of false = refl

keys_differ : ((theme_key === collapsed_key) ≡ false) × ((collapsed_key === theme_key) ≡ false)
unfolding ◌===◌
keys_differ = (refl, refl)

same_key : ((theme_key === theme_key) ≡ true) × ((collapsed_key === collapsed_key) ≡ true)
unfolding ◌===◌
same_key = (refl, refl)

set_item-Works : (s : Storage) (key value : Str) → Works s → Works (set_item s key value)
unfolding set_item
set_item-Works s key value h = ground (arith, h)

stored-theme :
    (s : Storage) (t : Theme)
    → Works s
    → stored (set_item s theme_key (theme_text t)) ≡ record (stored s) { theme = t }
unfolding read_stored read_collapsed
stored-theme s t h =
    rw
      (
        get_item-set_item s theme_key (theme_text t) theme_key h,
        get_item-set_item s theme_key (theme_text t) collapsed_key h,
        same_key.0,
        keys_differ.0,
        theme_of_text t,
      )
      refl

stored-collapsed :
    (s : Storage) (v : Bool)
    → Works s
    → stored (set_item s collapsed_key (if v then codes "1" else codes "0"))
      ≡ record (stored s) { collapsed = v }
unfolding read_stored read_collapsed
stored-collapsed s v h =
    let value = if v then codes "1" else codes "0" in
    rw
      (
        get_item-set_item s collapsed_key value collapsed_key h,
        get_item-set_item s collapsed_key value theme_key h,
        same_key.1,
        keys_differ.1,
        one_of v,
      )
      refl

-- The storage works and holds the settings that the shell has.
record IsKept (st : Shell) : Type 0 where
  works : Works st.storage
  same : stored st.storage ≡ settings_of st

step-IsKept :
    (e : ShellEvent) (st : Shell)
    → IsKept st
    → IsKept (shell_step e st) × (settings_of (shell_step e st) ≡ follow e (settings_of st))
unfolding shell_step follow set_theme change_system set_collapsed load_page
step-IsKept (chose_theme t) st h = (
  record {
    works = set_item-Works st.storage theme_key (theme_text t) h.works;
    same = stored-theme st.storage t h.works ∙ ap (λ (s : Settings). record s { theme = t }) h.same;
  },
  refl,
)
step-IsKept pressed_sidebar st h = (
  record {
    works = set_item-Works st.storage collapsed_key _ h.works;
    same =
        stored-collapsed st.storage (not st.collapsed) h.works
        ∙ ap (λ (s : Settings). record s { collapsed = not st.collapsed }) h.same;
  },
  refl,
)
step-IsKept reloaded st h = (record { works = h.works; same = refl }, h.same)
step-IsKept (system_changed p) st h = (record { works = h.works; same = h.same }, refl)
step-IsKept pressed_menu st h = (record { works = h.works; same = h.same }, refl)
step-IsKept followed_link st h = (record { works = h.works; same = h.same }, refl)
step-IsKept toggled_palette st h = (record { works = h.works; same = h.same }, refl)
step-IsKept opened_palette st h = (record { works = h.works; same = h.same }, refl)
step-IsKept closed_palette st h = (record { works = h.works; same = h.same }, refl)
step-IsKept opened_shortcuts st h = (record { works = h.works; same = h.same }, refl)
step-IsKept closed_shortcuts st h = (record { works = h.works; same = h.same }, refl)

run-IsKept :
    (es : List ShellEvent) (st : Shell)
    → IsKept st
    → settings_of (shell_run es st) ≡ replay es (settings_of st)
unfolding shell_run replay
run-IsKept [] st h = refl
run-IsKept (e ∷ es) st h =
    let (kept, same) = step-IsKept e st h in
    run-IsKept es (shell_step e st) kept ∙ ap (replay es) same

load-IsKept :
    (storage : Storage) (prefers : Bool) → Works storage → IsKept (load_page storage prefers)
unfolding load_page
load-IsKept storage prefers h = record { works = h; same = refl }

-- Where the storage can be read and written, the theme and the sidebar after any run of the shell, page
-- loads included, are what they are for a user whose settings are kept in a variable that page loads do
-- not touch, and that starts with what is stored.
pub shell_run_refines :
    (storage : Storage) (prefers : Bool) (es : List ShellEvent)
    → storage.readable ≡ true
    → storage.writable ≡ true
    → settings_of (shell_run es (load_page storage prefers))
      ≡ replay es (settings_of (load_page storage prefers))
shell_run_refines storage prefers es r w =
    run-IsKept es (load_page storage prefers) (load-IsKept storage prefers (r, w))
