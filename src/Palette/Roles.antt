-- ===== src/Palette/Roles.antt =====
-- The entries of the palette and the roles.
use restitch_gateway.Prelude.{
  ◌≡◌, true, not, Option, none, some, List, [], ◌∷◌, ◌++◌, Str, ◌===◌, inl, inr, Bool-cases, filter,
  take, All, All-append, All-always, All-filter_imp, All-member, All-filter, All-imp, All-map,
  All-flat_map, All-flatten,
}
use restitch_gateway.Access.{
  owner, editor, can, NavItem, EnvPage, nav_items, settings_items, env_pages, overview_to,
  IsNavItem, IsEnvPage,
}
use restitch_gateway.Palette.{
  Action, new_environment, new_resource, show_shortcuts, set_theme, sign_out, go, go_resource,
  Command,
}
use restitch_gateway.Palette.Items.{
  Resource, environment_commands, new_resource_command, resource_commands, appearance,
  common_commands, nav_command, nav_commands, here_command, here_commands, page_command,
  env_commands, resource_command, found_commands, palette_parts, palette_items,
}

-- What a role may do, by the least roles in the tables of nav.ts. Everybody may use the common actions, and open an environment or a resource.
pub data MayRun (role : Option Str) : Action → Type 0 where
  common_shortcuts : MayRun role show_shortcuts
  common_theme : (name : Str) → MayRun role (set_theme name)
  common_sign_out : MayRun role sign_out
  overview : (name : Str) → MayRun role (go overview_to (some name))
  resource : (env kind name : Str) → MayRun role (go_resource env kind name)
  add_environment : can role owner ≡ true → MayRun role new_environment
  add_resource : (env : Str) → can role editor ≡ true → MayRun role (new_resource env)
  nav : (i : NavItem) → IsNavItem i → can role i.min ≡ true → MayRun role (go i.to none)
  page :
      (p : EnvPage) (env : Str)
      → IsEnvPage p
      → can role p.min ≡ true
      → MayRun role (go p.to (some env))

abbrev pub Permitted : Option Str → Command → Type 0
Permitted role c = MayRun role c.run

environment_commands-Permitted :
    (role : Option Str) → All (Permitted role) (environment_commands role)
unfolding environment_commands
environment_commands-Permitted role = elim (Bool-cases (can role owner)) [
  | inl may ↦ rw may (add_environment may, tt)
  | inr may ↦ rw may tt
]

resource_commands-Permitted :
    (role here : Option Str) (names : List Str)
    → All (Permitted role) (resource_commands role here names)
unfolding resource_commands new_resource_command
resource_commands-Permitted role here names = elim (Bool-cases (can role editor)) [
  | inl may ↦ rw may (
      All-map (Permitted role) (new_resource_command here) names
        (All-always _ (λ name. add_resource name may) names))
  | inr may ↦ rw may tt
]

common_commands-Permitted : (role : Option Str) → All (Permitted role) common_commands
unfolding appearance
common_commands-Permitted role =
    (common_shortcuts, (common_theme _, (common_theme _, (common_theme _, (common_sign_out, tt)))))

nav_commands-Permitted :
    (upper : Str → Str) (role : Option Str) (items : List NavItem)
    → All IsNavItem items
    → All (Permitted role) (nav_commands upper role items)
unfolding nav_commands nav_command
nav_commands-Permitted upper role items listed =
    All-map (Permitted role) (nav_command upper) (filter (λ i. can role i.min) items)
      (All-filter_imp IsNavItem _ (λ i. can role i.min) (λ i l may. nav i l may) items listed)

abbrev AllPages : Option Str → List EnvPage → Type 0
AllPages role pages = All (λ p. IsEnvPage p × (can role p.min ≡ true)) pages

here_commands-Permitted :
    (upper : Str → Str) (role here : Option Str) (pages : List EnvPage)
    → AllPages role pages
    → All (Permitted role) (here_commands upper here pages)
unfolding here_commands here_command
here_commands-Permitted upper role none pages h = tt
here_commands-Permitted upper role (some []) pages h = tt
here_commands-Permitted upper role (some (c ∷ here)) pages h =
    All-map (Permitted role) (here_command upper (c ∷ here)) pages
      (All-imp _ _ (λ p (l, may). page p (c ∷ here) l may) pages h)

env_commands-Permitted :
    (upper : Str → Str) (role here : Option Str) (pages : List EnvPage) (name : Str)
    → AllPages role pages
    → All (Permitted role) (env_commands upper here pages name)
unfolding env_commands page_command
env_commands-Permitted upper role here pages name h = (
  overview name,
  All-map (Permitted role) (page_command upper name) _ (
      All-imp _ _ (λ p (l, may). page p name l may) (filter (λ p. not (p.to === overview_to)) pages)
        (All-filter _ _ pages h)),
)

found_commands-Permitted :
    (upper : Str → Str) (role : Option Str) (names : List Str) (rs : List (List Resource))
    → All (Permitted role) (found_commands upper names rs)
unfolding found_commands resource_command
found_commands-Permitted upper role [] rs = tt
found_commands-Permitted upper role (name ∷ names) [] = tt
found_commands-Permitted upper role (name ∷ names) (r ∷ rs) =
    All-append (Permitted role) _ _
      (elim (Bool-cases (name === [])) [
        | inl e ↦ rw e tt
        | inr e ↦ rw e (
            All-map (Permitted role) (resource_command upper name) r
              (All-always _ (λ x. resource name _ _) r))
      ])
      (found_commands-Permitted upper role names rs)

palette_parts-Permitted :
    (upper : Str → Str) (role here : Option Str) (names : List Str) (rs : List (List Resource))
    → All (All (Permitted role)) (palette_parts upper role here names rs)
unfolding palette_parts
palette_parts-Permitted upper role here names rs =
    let pages = filter (λ p. can role p.min) env_pages in
    let seen : AllPages role pages =
      All-filter_imp IsEnvPage _ (λ p. can role p.min) (λ p l may. (l, may)) env_pages
        (All-member env_pages) in
    (
      environment_commands-Permitted role,
      (
        resource_commands-Permitted role here (take 25 names),
        (
          common_commands-Permitted role,
          (
            nav_commands-Permitted upper role (nav_items ++ settings_items)
                (All-member (nav_items ++ settings_items)),
            (
              here_commands-Permitted upper role here pages seen,
              (
                All-flat_map (Permitted role) (env_commands upper here pages) (take 25 names) (
                    All-always _ (λ name. env_commands-Permitted upper role here pages name seen)
                      (take 25 names)),
                (found_commands-Permitted upper role (take 25 names) rs, tt),
              ),
            ),
          ),
        ),
      ),
    )

-- Every entry of the palette is an action that the user's role may take: a page is one of the tables of
-- nav.ts whose least role the user has, a new environment needs an owner, a new resource an editor; the
-- common actions, the overview of an environment and a resource are open to everybody.
pub palette_items-Permitted :
    (upper : Str → Str) (role here : Option Str) (names : List Str) (rs : List (List Resource))
    → All (Permitted role) (palette_items upper role here names rs)
unfolding palette_items
palette_items-Permitted upper role here names rs =
    All-flatten (Permitted role) (palette_parts upper role here names rs)
      (palette_parts-Permitted upper role here names rs)
