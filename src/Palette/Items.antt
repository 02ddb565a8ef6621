-- ===== src/Palette/Items.antt =====
-- studio/src/app/command-palette.tsx: usePaletteItems, the entries of the palette. The queries are
-- their data: the environments, and the resources of each of the first 25 of them.
use restitch_gateway.Prelude.{
  Bool, false, not, Option, none, some, List, [], ◌∷◌, ◌++◌, map, Str, codes, ◌===◌, if◌then◌else◌,
  filter, take, flat_map, flatten,
}
use restitch_gateway.Access.{
  editor, owner, can, NavItem, EnvPage, nav_items, settings_items, env_pages, overview_to, Kind,
  kind_text, kinds, kind_label, is_singleton,
}
use restitch_gateway.Palette.{
  always, idle, search, Action, new_environment, new_resource, show_shortcuts, set_theme, sign_out,
  go, go_resource, Command,
}

pub record Resource : Type 0 where
  pub kind : Kind
  pub name : Str

abbrev pub plain : Str → Str → Str → Action → Command
plain id group label run = record {
  id = id;
  label = label;
  group = group;
  hint = none;
  keywords = none;
  shown = always;
  run = run;
}

unfoldable pub environment_commands : Option Str → List Command
environment_commands role =
    if can role owner
    then record (plain (codes "new-environment") (codes "Actions") (codes "New environment")
        new_environment) { keywords = some (codes "create add environment") }
      ∷ []
    else []

-- `a.join(" ")`.
unfoldable pub join_words : List Str → Str
join_words [] = []
join_words (x ∷ []) = x
join_words (x ∷ y ∷ xs) = x ++ codes " " ++ join_words (y ∷ xs)

unfoldable pub is_here : Option Str → Str → Bool
is_here none name = false
is_here (some here) name = name === here

unfoldable pub new_resource_command : Option Str → Str → Command
new_resource_command here name =
    record (plain (codes "new-resource-" ++ name) (codes "Actions")
      (codes "New resource in " ++ name) (new_resource name)) {
        keywords = some (codes "create add resource " ++ join_words (map (λ k. k.label) kinds));
        shown = if is_here here name then always else search;
      }

unfoldable pub resource_commands : Option Str → Option Str → List Str → List Command
resource_commands role here names =
    if can role editor then map (new_resource_command here) names else []

unfoldable pub appearance : Str → Str → Action → Command
appearance id label run = record (plain id (codes "Actions") label run) {
  keywords = some (codes "appearance");
  shown = search;
}

abbrev pub common_commands : List Command
common_commands =
    record (plain (codes "shortcuts") (codes "Actions") (codes "Show keyboard shortcuts")
      show_shortcuts) { hint = some (codes "?") }
    ∷ appearance (codes "theme-light") (codes "Switch to light theme") (set_theme (codes "light"))
    ∷ appearance (codes "theme-dark") (codes "Switch to dark theme") (set_theme (codes "dark"))
    ∷ appearance (codes "theme-system") (codes "Use the system theme") (set_theme (codes "system"))
    ∷ record (plain (codes "sign-out") (codes "Actions") (codes "Sign out") sign_out) {
      keywords = some (codes "log out logout");
      shown = search;
    }
    ∷ []

-- `toUpperCase` is `upper`.
module _ (upper : Str → Str) where
  unfoldable pub nav_hint : Option Str → Option Str
  nav_hint none = none
  nav_hint (some []) = none
  nav_hint (some (c ∷ chord)) = some (codes "G " ++ upper (c ∷ chord))

  unfoldable pub nav_command : NavItem → Command
  nav_command i = record (plain (codes "nav-" ++ i.to) (codes "Go to") i.label (go i.to none)) {
    hint = nav_hint i.chord;
    keywords = some (codes "page open go");
  }

  unfoldable pub nav_commands : Option Str → List NavItem → List Command
  nav_commands role items = map nav_command (filter (λ i. can role i.min) items)

  unfoldable pub here_command : Str → EnvPage → Command
  here_command here p =
      record (plain (codes "here-" ++ p.to) (codes "Go to") p.label (go p.to (some here))) {
        hint = some (codes "G " ++ upper p.chord);
        shown = idle;
      }

  -- No environment, or one with an empty name, adds no pages.
  unfoldable pub here_commands : Option Str → List EnvPage → List Command
  here_commands none pages = []
  here_commands (some []) pages = []
  here_commands (some (c ∷ here)) pages = map (here_command (c ∷ here)) pages

  unfoldable pub page_command : Str → EnvPage → Command
  page_command name p =
      record (plain (codes "env-" ++ name ++ codes "-" ++ p.to) (codes "Environments")
        (name ++ codes " / " ++ p.label) (go p.to (some name))) {
          keywords = p.keywords;
          shown = search;
        }

  unfoldable pub env_commands : Option Str → List EnvPage → Str → List Command
  env_commands here pages name =
      record (plain (codes "env-" ++ name) (codes "Environments") name
        (go overview_to (some name))) {
          hint = if is_here here name then some (codes "Current") else none;
          keywords = some (codes "environment open overview");
        }
      ∷ map (page_command name) (filter (λ p. not (p.to === overview_to)) pages)

  unfoldable pub resource_command : Str → Resource → Command
  resource_command name r =
      record (plain (codes "res-" ++ name ++ codes "-" ++ kind_text r.kind ++ codes "-" ++ r.name)
        (codes "Resources") (if is_singleton r.kind then kind_label r.kind else r.name)
        (go_resource name (kind_text r.kind) r.name)) {
          hint =
              some (if is_singleton r.kind then name else name ++ codes " · " ++ kind_label r.kind);
          keywords = some (r.name ++ codes " " ++ kind_text r.kind ++ codes " resource");
          shown = search;
        }

  -- The resources of each environment, in the order of the environments.
  unfoldable pub found_commands : List Str → List (List Resource) → List Command
  found_commands [] rs = []
  found_commands (name ∷ names) [] = []
  found_commands (name ∷ names) (r ∷ rs) =
      (if name === [] then [] else map (resource_command name) r) ++ found_commands names rs

  -- What usePaletteItems pushes, loop by loop.
  unfoldable pub palette_parts :
      Option Str → Option Str → List Str → List (List Resource) → List (List Command)
  palette_parts role here environments resources =
      let names = take 25 environments in
      let pages = filter (λ p. can role p.min) env_pages in
      environment_commands role
      ∷ resource_commands role here names
      ∷ common_commands
      ∷ nav_commands role (nav_items ++ settings_items)
      ∷ here_commands here pages
      ∷ flat_map (env_commands here pages) names
      ∷ found_commands names resources
      ∷ []

  unfoldable pub palette_items :
      Option Str → Option Str → List Str → List (List Resource) → List Command
  palette_items role here environments resources =
      flatten (palette_parts role here environments resources)
