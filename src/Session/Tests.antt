-- ===== src/Session/Tests.antt =====
-- A session that expires, a sign-out whose request fails, and a new password.
use restitch_gateway.Prelude.{
  ℕ, ◌≤◌, ◌≡◌, refl, true, false, some, [], ◌∷◌, ◌++◌, Str, codes, ◌===◌, length,
}
use restitch_gateway.Text.{starts_with}
use restitch_gateway.Editor.{idle, pending, is_pending}
use restitch_gateway.Errors.{other_error, safe_redirect}
use restitch_gateway.Session.{
  login, page, Browser, Query, is_same_origin, perform, perform_all, expired, ended, sign_out_run,
  empty_login, succeeded, login_step, PasswordForm, PasswordRequest, PasswordEvent, submitted,
  password_step, on_response, on_unauthorized, off_unauthorized, clear_cache, go_login,
}
use restitch_gateway.Session.Trips.{presses, signed_out, sign_out_run_ends, expired-login_step}
use restitch_gateway.Session.Password.{password_step-sent}

abbrev drafts : Str
drafts = codes "/environments/a/draft"

abbrev open_page : Browser
open_page = record { location = page drafts; cached = codes "me" ∷ []; requests = [] }

sign_out_run_ends_example :
    sign_out_run (presses 3 ++ ended (some (other_error (codes "offline"))) ∷ []) false open_page
    ≡ (false, signed_out open_page)
sign_out_run_ends_example = sign_out_run_ends 2 (some (other_error (codes "offline"))) open_page

slash : starts_with drafts (codes "/") ≡ true
unfolding starts_with
slash = refl

double : starts_with drafts (codes "//") ≡ false
unfolding starts_with
double = refl

sign_in : starts_with drafts (codes "/login") ≡ false
unfolding starts_with
sign_in = refl

expired-login_step_example :
    let at_login = perform_all (expired open_page.location) open_page in
    (at_login.location ≡ login (some drafts))
    × (perform_all (login_step (some drafts) succeeded empty_login).1 at_login
        ≡ record { location = page drafts; cached = []; requests = [] })
expired-login_step_example =
    expired-login_step drafts (codes "me" ∷ []) [] empty_login slash double sign_in

-- A slash and a backslash pass the test of safeRedirect, and the browser reads a host behind them.
abbrev disguised : Str
disguised = b'/' ∷ b'\\' ∷ codes "evil.example"

leaves_studio :
    ((perform_all (login_step (some disguised) succeeded empty_login).1 open_page).location
      ≡ page disguised)
    × (is_same_origin disguised ≡ false)
unfolding login_step perform_all perform safe_redirect starts_with is_same_origin
leaves_studio = (refl, refl)

-- A later fetch that fails keeps the user but takes the shell away.
abbrev stale_user : Query ℕ
stale_user = record { value = some 7; error = some (other_error (codes "offline")) }

abbrev long_enough : Str
long_enough = codes "0123456789"

abbrev filled : PasswordForm
filled = record {
  current = codes "old";
  next = long_enough;
  confirm = long_enough;
  mismatch = true;
  mutation = idle;
  toasts = 0;
}

abbrev sent : PasswordRequest
sent = record {
  current_password = codes "old";
  new_password = long_enough;
  revoke_other_sessions = true;
}

filled_sends : (password_step submitted filled).1 ≡ some sent
unfolding password_step is_pending ◌===◌
filled_sends = refl

password_step-sent_example :
    (◌≡◌ {A = PasswordEvent} submitted submitted)
    × (sent.new_password ≡ filled.next)
    × (filled.next ≡ filled.confirm)
    × (10 ≤ length filled.next)
    × (sent.current_password ≡ filled.current)
    × (sent.revoke_other_sessions ≡ true)
    × (is_pending filled.mutation ≡ false)
    × ((password_step submitted filled).0.mutation ≡ pending)
password_step-sent_example = password_step-sent submitted filled sent filled_sends

-- Two listeners hear a 401, one of them no more after it is removed.
heard :
    on_response (λ l. expired (page drafts)) (off_unauthorized (on_unauthorized (3 ∷ []) 4) 3) 401
    ≡ clear_cache ∷ go_login (some drafts) ∷ []
unfolding on_response on_unauthorized off_unauthorized expired
heard = refl
