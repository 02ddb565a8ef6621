-- ===== src/Shell/Painted.antt =====
-- The class of the root element: apply of theme.tsx.
use restitch_gateway.Prelude.{
  ◌≡◌, refl, ◌∙◌, Bool, true, false, List, [], ◌∷◌, ◌===◌, inl, inr, Bool-cases,
}
use restitch_gateway.Shell.{
  Theme, dark, light, system, same_theme, Storage, Shell, ShellEvent, chose_theme, system_changed,
  pressed_sidebar, pressed_menu, followed_link, toggled_palette, opened_palette, closed_palette,
  opened_shortcuts, closed_shortcuts, reloaded, is_dark, load_page, set_theme, change_system,
  set_collapsed, shell_step, shell_run,
}

abbrev pub IsPainted : Shell → Type 0
IsPainted st = st.page_dark ≡ is_dark st.theme st.prefers_dark

same_theme→eq : (a b : Theme) → same_theme a b ≡ true → a ≡ b
unfolding ◌===◌
same_theme→eq dark dark h = refl
same_theme→eq light light h = refl
same_theme→eq system system h = refl
same_theme→eq dark light h = cc
same_theme→eq dark system h = cc
same_theme→eq light dark h = cc
same_theme→eq light system h = cc
same_theme→eq system dark h = cc
same_theme→eq system light h = cc

not_system : (a : Theme) (p q : Bool) → same_theme a system ≡ false → is_dark a p ≡ is_dark a q
unfolding is_dark ◌===◌
not_system dark p q h = refl
not_system light p q h = refl
not_system system p q h = cc

set_theme-IsPainted : (t : Theme) (st : Shell) → IsPainted st → IsPainted (set_theme t st)
unfolding set_theme
set_theme-IsPainted t st h = elim (Bool-cases (same_theme st.theme t)) [
  | inl e ↦ rw e (rw (← same_theme→eq st.theme t e) h)
  | inr e ↦ rw e refl
]

change_system-IsPainted : (p : Bool) (st : Shell) → IsPainted st → IsPainted (change_system p st)
unfolding change_system
change_system-IsPainted p st h = elim (Bool-cases (same_theme st.theme system)) [
  | inl e ↦ rw e (rw (same_theme→eq st.theme system e) refl)
  | inr e ↦ rw e (h ∙ not_system st.theme st.prefers_dark p e)
]

step-IsPainted : (e : ShellEvent) (st : Shell) → IsPainted st → IsPainted (shell_step e st)
unfolding shell_step set_collapsed load_page
step-IsPainted (chose_theme t) st h = set_theme-IsPainted t st h
step-IsPainted (system_changed p) st h = change_system-IsPainted p st h
step-IsPainted pressed_sidebar st h = h
step-IsPainted pressed_menu st h = h
step-IsPainted followed_link st h = h
step-IsPainted toggled_palette st h = h
step-IsPainted opened_palette st h = h
step-IsPainted closed_palette st h = h
step-IsPainted opened_shortcuts st h = h
step-IsPainted closed_shortcuts st h = h
step-IsPainted reloaded st h = refl

run-IsPainted : (es : List ShellEvent) (st : Shell) → IsPainted st → IsPainted (shell_run es st)
unfolding shell_run
run-IsPainted [] st h = h
run-IsPainted (e ∷ es) st h = run-IsPainted es (shell_step e st) (step-IsPainted e st h)

load-IsPainted : (storage : Storage) (prefers : Bool) → IsPainted (load_page storage prefers)
unfolding load_page
load-IsPainted storage prefers = refl

-- After any run from a page load, with any storage, the page is dark exactly as its theme and the
-- preference of the system at that moment say.
pub shell_run-IsPainted :
    (storage : Storage) (prefers : Bool) (es : List ShellEvent)
    → IsPainted (shell_run es (load_page storage prefers))
shell_run-IsPainted storage prefers es = run-IsPainted es _ (load-IsPainted storage prefers)
