-- ===== src/Session/Trips.antt =====
-- Where sign-in, sign-out and an expired session lead: auth.ts, root-shell.tsx and LoginPage.tsx together.
use restitch_gateway.Prelude.{
  ℕ, zero, suc, ◌≡◌, ◌≢◌, ◌↔◌, refl, true, false, inl, inr, Option, none, some, List, [], ◌∷◌, ◌++◌,
  Str, arith, codes, Option-cases, Bool, ◌&&◌, not, ◌==◌,
}
use restitch_gateway.Text.{starts_with}
use restitch_gateway.Errors.{Failure, safe_redirect}
use restitch_gateway.Session.{
  Location, login, page, is_login, Browser, Query, Action, shell, perform, perform_all, expired,
  root_screen, current_user, SignOutEvent, is_url_unit, pressed, ended, send_sign_out,
  sign_out_step, sign_out_run, LoginForm, succeeded, login_step,
}

abbrev pub presses : ℕ → List SignOutEvent
presses zero = []
presses (suc n) = pressed ∷ presses n

-- What a browser is after a sign-out.
abbrev pub signed_out : Browser → Browser
signed_out b = record { location = login none; cached = []; requests = send_sign_out ∷ b.requests }

busy_presses :
    (n : ℕ) (rest : List SignOutEvent) (b : Browser)
    → sign_out_run (presses n ++ rest) true b ≡ sign_out_run rest true b
unfolding sign_out_run sign_out_step perform_all
busy_presses zero rest b = refl
busy_presses (suc n) rest b = busy_presses n rest b

-- A sign-out ends. However often the button is pressed, once the request has ended, with an answer or
-- with a failure, one request was sent, the button is free again, the cache is empty, and the sign-in
-- page is open without a path to return to.
pub sign_out_run_ends :
    (n : ℕ) (result : Option Failure) (b : Browser)
    → sign_out_run (presses (suc n) ++ ended result ∷ []) false b ≡ (false, signed_out b)
unfolding sign_out_run sign_out_step perform_all perform
sign_out_run_ends n result b = busy_presses n (ended result ∷ []) _

slash_first : starts_with [] (codes "/") ≢ true
unfolding starts_with
slash_first h = cc

own_path :
    (href : Str)
    → starts_with href (codes "/") ≡ true
    → starts_with href (codes "//") ≡ false
    → starts_with href (codes "/login") ≡ false
    → safe_redirect (some href) ≡ href
unfolding safe_redirect
own_path [] slash double sign_in = absurd (slash_first slash)
own_path (c ∷ href) slash double sign_in = rw (slash, double, sign_in) refl

-- A session that expires costs nothing but a sign-in. After a 401 on a page whose path starts with one
-- slash and not with /login, and a sign-in on the page that then opens, the same page is open again;
-- the cache holds nothing from before, and no request was sent besides.
pub expired-login_step :
    (href : Str) (cached : List Str) (requests : List Action) (form : LoginForm)
    → starts_with href (codes "/") ≡ true
    → starts_with href (codes "//") ≡ false
    → starts_with href (codes "/login") ≡ false
    → let b : Browser = record { location = page href; cached = cached; requests = requests } in
      let at_login = perform_all (expired b.location) b in
      (at_login.location ≡ login (some href))
      × (perform_all (login_step (some href) succeeded form).1 at_login
          ≡ record { location = page href; cached = []; requests = requests })
unfolding expired login_step perform_all perform
expired-login_step href cached requests form slash double sign_in =
    (refl, rw (own_path href slash double sign_in) refl)

-- Neither a backslash nor a unit that the browser drops.
abbrev pub is_plain : ℕ → Bool
is_plain c = is_url_unit c && not (c == b'\\')

abbrev pub or_empty : Option Str → Str
or_empty none = []
or_empty (some s) = s

shown_shell :
    {A : Type 0} (location : Location) (me : Query A)
    → root_screen location me ≡ shell
    → (is_login location ≡ false) × (me.error ≡ none) × ((a : A) × (current_user me ≡ some a))
unfolding root_screen current_user
shown_shell location me h = elim (Option-cases me.value) [
  | inl e ↦ absurd (ground (arith, h, e))
  | inr (a, e) ↦ (ground (arith, h), ground (arith, h), (a, e))
]

-- The shell with the pages is shown exactly when the page is not the sign-in page and the query for the
-- user has data and no error.
pub root_screen-shell :
    {A : Type 0} (location : Location) (me : Query A)
    → (root_screen location me ≡ shell)
      ↔ ((is_login location ≡ false) × (me.error ≡ none) × ((a : A) × (current_user me ≡ some a)))
unfolding root_screen current_user
root_screen-shell location me = (shown_shell location me, λ h. ground (arith, h))
