-- ===== src/Pages/Links.antt =====
-- The links of an environment and the chords of the keyboard, for a role.
use restitch_gateway.Prelude.{
  ℕ, ◌≡◌, ◌↔◌, refl, true, Option, some, ◌∷◌, map, Str, ◌===◌, includes, All, inl, inr, Bool-cases,
}
use restitch_gateway.Access.{viewer, owner, can, EnvPage, env_pages}
use restitch_gateway.Keyboard.{
  get_chord, set_chord, add_nav_chord, add_nav_chords, add_page_chords, add_env_chords,
  chord_targets,
}
use restitch_gateway.Pages.{environment_nav}

abbrev pub HasLink : Option Str → EnvPage → Type 0
HasLink role p = includes (map (λ q. q.to) (environment_nav role)) p.to ≡ true

abbrev pub HasChord : Option Str → Str → EnvPage → Type 0
HasChord role env p =
    get_chord (chord_targets role (some env)) p.chord ≡ some (record { to = p.to; env = some env })

-- In an environment with a name, each of its pages has a link in the navigation of the environment
-- exactly when the chord of the page leads to it.
pub environment_nav-chord_targets :
    (role : Option Str) (c : ℕ) (env : Str)
    → All (λ p. HasLink role p ↔ HasChord role (c ∷ env) p) env_pages
unfolding environment_nav chord_targets add_env_chords add_page_chords add_nav_chords add_nav_chord
    set_chord get_chord ◌===◌
environment_nav-chord_targets role c env = elim (Bool-cases (can role viewer)) [
  | inl v ↦ elim (Bool-cases (can role owner)) [
    | inl o ↦
        rw (v, o)
          (
            (λ _. refl, λ _. refl),
            ((λ _. refl, λ _. refl), ((λ _. refl, λ _. refl), ((λ _. refl, λ _. refl), tt))),
          )
    | inr o ↦
        rw (v, o)
          (
            (λ _. refl, λ _. refl),
            (
              (λ _. refl, λ _. refl),
              ((λ _. refl, λ _. refl), ((λ h. absurd (cc h), λ h. absurd (cc h)), tt)),
            ),
          )
  ]
  | inr v ↦ elim (Bool-cases (can role owner)) [
    | inl o ↦
        rw (v, o)
          (
            (λ h. absurd (cc h), λ h. absurd (cc h)),
            (
              (λ h. absurd (cc h), λ h. absurd (cc h)),
              ((λ h. absurd (cc h), λ h. absurd (cc h)), ((λ _. refl, λ _. refl), tt)),
            ),
          )
    | inr o ↦
        rw (v, o)
          (
            (λ h. absurd (cc h), λ h. absurd (cc h)),
            (
              (λ h. absurd (cc h), λ h. absurd (cc h)),
              (
                (λ h. absurd (cc h), λ h. absurd (cc h)),
                ((λ h. absurd (cc h), λ h. absurd (cc h)), tt),
              ),
            ),
          )
  ]
]
