-- ===== src/Keyboard/Chords.antt =====
-- The chords of keyboard.tsx and the roles.
use restitch_gateway.Prelude.{
  ◌≡◌, refl, subst, true, Option, none, some, List, [], ◌∷◌, ◌++◌, Str, All-member, ◌===◌,
  Bool-cases, All, inl, inr,
}
use mathlib.Core.Option.{some-injective}
use restitch_gateway.Access.{
  Role, can, NavItem, EnvPage, nav_items, settings_items, env_pages, IsNavItem, IsEnvPage,
}
use restitch_gateway.Keyboard.{
  Chord, ChordMap, set_chord, get_chord, add_nav_chord, add_nav_chords, add_page_chords,
  add_env_chords, chord_targets,
}

-- A page of the tables of nav.ts, and the least role that sees it.
pub data IsOffered (env : Option Str) : Role → Chord → Type 0 where
  nav : (i : NavItem) → IsNavItem i → IsOffered env i.min (record { to = i.to; env = none })
  page :
      (p : EnvPage) (name : Str)
      → IsEnvPage p
      → env ≡ some name
      → IsOffered env p.min (record { to = p.to; env = some name })

-- Some page of the tables that the role may see leads there.
abbrev pub MaySee : Option Str → Option Str → Chord → Type 0
MaySee role env c = (min : Role) × (can role min ≡ true) × IsOffered env min c

abbrev pub AllMaySee : Option Str → Option Str → ChordMap → Type 0
AllMaySee role env m = All (λ (_, c). MaySee role env c) m

set_chord-AllMaySee :
    (role env : Option Str) (m : ChordMap) (k : Str) (c : Chord)
    → AllMaySee role env m
    → MaySee role env c
    → AllMaySee role env (set_chord m k c)
unfolding set_chord
set_chord-AllMaySee role env [] k c ms s = (s, tt)
set_chord-AllMaySee role env ((j, w) ∷ m) k c (s', ms) s = elim (Bool-cases (j === k)) [
  | inl e ↦ rw e (s, ms)
  | inr e ↦ rw e (s', set_chord-AllMaySee role env m k c ms s)
]

add_nav_chord-AllMaySee :
    (role env : Option Str) (m : ChordMap) (i : NavItem) (chord : Option Str)
    → IsNavItem i
    → AllMaySee role env m
    → AllMaySee role env (add_nav_chord role m i chord)
unfolding add_nav_chord
add_nav_chord-AllMaySee role env m i none l ms = ms
add_nav_chord-AllMaySee role env m i (some []) l ms = ms
add_nav_chord-AllMaySee role env m i (some (c ∷ chord)) l ms = elim (Bool-cases (can role i.min)) [
  | inl may ↦ rw may (set_chord-AllMaySee role env m (c ∷ chord) _ ms (i.min, may, nav i l))
  | inr may ↦ rw may ms
]

add_nav_chords-AllMaySee :
    (role env : Option Str) (m : ChordMap) (items : List NavItem)
    → All IsNavItem items
    → AllMaySee role env m
    → AllMaySee role env (add_nav_chords role m items)
unfolding add_nav_chords
add_nav_chords-AllMaySee role env m [] ls ms = ms
add_nav_chords-AllMaySee role env m (i ∷ items) (l, ls) ms =
    add_nav_chords-AllMaySee role env (add_nav_chord role m i i.chord) items ls
      (add_nav_chord-AllMaySee role env m i i.chord l ms)

add_page_chords-AllMaySee :
    (role : Option Str) (name : Str) (m : ChordMap) (pages : List EnvPage)
    → All IsEnvPage pages
    → AllMaySee role (some name) m
    → AllMaySee role (some name) (add_page_chords role name m pages)
unfolding add_page_chords
add_page_chords-AllMaySee role name m [] ls ms = ms
add_page_chords-AllMaySee role name m (p ∷ pages) (l, ls) ms = elim (Bool-cases (can role p.min)) [
  | inl may ↦ rw may (
      add_page_chords-AllMaySee role name
        (set_chord m p.chord (record { to = p.to; env = some name })) pages ls
        (set_chord-AllMaySee role (some name) m p.chord _ ms (p.min, may, page p name l refl)))
  | inr may ↦ rw may (add_page_chords-AllMaySee role name m pages ls ms)
]

chord_targets-AllMaySee : (role env : Option Str) → AllMaySee role env (chord_targets role env)
unfolding chord_targets add_env_chords
chord_targets-AllMaySee role none =
    add_nav_chords-AllMaySee role none [] _ (All-member (nav_items ++ settings_items)) tt
chord_targets-AllMaySee role (some []) =
    add_nav_chords-AllMaySee role (some []) [] _ (All-member (nav_items ++ settings_items)) tt
chord_targets-AllMaySee role (some (c ∷ env)) =
    add_page_chords-AllMaySee role (c ∷ env) _ env_pages (All-member env_pages) (
      add_nav_chords-AllMaySee role (some (c ∷ env)) [] _ (All-member (nav_items ++ settings_items))
        tt)

get_chord-MaySee :
    (role env : Option Str) (m : ChordMap) (k : Str) (c : Chord)
    → AllMaySee role env m
    → get_chord m k ≡ some c
    → MaySee role env c
unfolding get_chord
get_chord-MaySee role env [] k c ms e = absurd cc
get_chord-MaySee role env ((j, w) ∷ m) k c (s, ms) e = elim (Bool-cases (j === k)) [
  | inl same ↦ subst (MaySee role env) (some-injective w c (rw same at e)) s
  | inr other ↦ get_chord-MaySee role env m k c ms (rw other at e)
]

-- A chord leads only to a page that the user's role may see: to a page of the navigation, or to a
-- page of the environment that is open.
pub chord_targets-MaySee :
    (role env : Option Str) (k : Str) (c : Chord)
    → get_chord (chord_targets role env) k ≡ some c
    → MaySee role env c
chord_targets-MaySee role env k c =
    get_chord-MaySee role env _ k c (chord_targets-AllMaySee role env)
