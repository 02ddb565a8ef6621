-- ===== src/Session.antt =====
-- Who is signed in: studio/src/lib/auth.ts, studio/src/app/root-shell.tsx, the sign-in page
-- (features/auth/LoginPage.tsx, routes/login.tsx), the form for a new password
-- (features/auth/change-password-form.tsx), the listeners of studio/src/api-client.ts and the retries of
-- studio/src/main.tsx. What the handlers do to the router, the cache and the network is a list of
-- actions; `perform` says what the router and the cache make of them.
pub mod Trips
pub mod Password
pub mod Tests
use restitch_gateway.Prelude.{
  ℕ, suc, ◌+◌, Bool, true, false, not, ◌&&◌, ◌||◌, Option, none, some, List, [], ◌∷◌, ◌++◌, Str,
  codes, ◌===◌, ◌==◌, ltb, leb, if◌then◌else◌, length, filter, flat_map,
}
use restitch_gateway.Errors.{
  Failure, api, other_error, unknown, error_message, safe_redirect, login_error,
}
use restitch_gateway.Editor.{Mutation, idle, pending, failed, done, is_pending}

-- What the address bar holds: the sign-in page with its search parameter, or another address as it was
-- given to the router. `is_same_origin` says where the browser takes an address.
pub data Location : Type 0 where
  login : Option Str → Location
  page : Str → Location

abbrev pub is_login : Location → Bool
is_login (login redirect) = true
is_login (page href) = false

-- `validateSearch` of routes/login.tsx: only a text is kept.
pub data Param : Type 0 where
  missing : Param
  text : Str → Param
  other_value : Param

unfoldable pub login_search : Param → Option Str
login_search (text redirect) = some redirect
login_search missing = none
login_search other_value = none

pub data Action : Type 0 where
  clear_cache : Action
  go_login : Option Str → Action
  go_home : Action
  replace_with : Str → Action
  invalidate_me : Action
  send_sign_out : Action
  send_sign_in : Str → Str → Action

-- How a browser resolves an address that starts with a slash: it drops tabs and line ends, takes a
-- backslash for a slash, and reads the name of a host behind two slashes.
abbrev pub is_url_unit : ℕ → Bool
is_url_unit c = not (c == 9 || c == 10 || c == 13)

abbrev pub has_host : Str → Bool
has_host [] = false
has_host (c ∷ s) = c == b'/' || c == b'\\'

abbrev pub after_slash : Str → Bool
after_slash [] = false
after_slash (c ∷ s) = c == b'/' && not (has_host s)

unfoldable pub is_same_origin : Str → Bool
is_same_origin href = after_slash (filter is_url_unit href)

-- The page that is open, the keys of the queries in the cache, and the requests that were sent.
pub record Browser : Type 0 where
  pub location : Location
  pub cached : List Str
  pub requests : List Action

-- `replace_with` is used on addresses that `safeRedirect` gives, so it never opens the sign-in page. It
-- takes the address as it is, on Studio or not.
unfoldable pub perform : Action → Browser → Browser
perform clear_cache b = record b { cached = [] }
perform (go_login redirect) b = record b { location = login redirect }
perform go_home b = record b { location = page (codes "/") }
perform (replace_with href) b = record b { location = page href }
perform invalidate_me b = b
perform send_sign_out b = record b { requests = send_sign_out ∷ b.requests }
perform (send_sign_in email password) b = record b {
  requests = send_sign_in email password ∷ b.requests;
}

unfoldable pub perform_all : List Action → Browser → Browser
perform_all [] b = b
perform_all (a ∷ actions) b = perform_all actions (perform a b)

-- api-client.ts: the set of listeners, by the identity of the function.
unfoldable pub on_unauthorized : List ℕ → ℕ → List ℕ
on_unauthorized listeners fn = filter (λ l. not (l == fn)) listeners ++ fn ∷ []

unfoldable pub off_unauthorized : List ℕ → ℕ → List ℕ
off_unauthorized listeners fn = filter (λ l. not (l == fn)) listeners

-- The interceptor of responses; `call` is what a listener does.
unfoldable pub on_response : (ℕ → List Action) → List ℕ → ℕ → List Action
on_response call listeners status = if status == 401 then flat_map call listeners else []

-- The listener of RootShell.
unfoldable pub expired : Location → List Action
expired (login redirect) = []
expired (page href) = clear_cache ∷ go_login (some href) ∷ []

-- `useQuery`: a query is pending while it has neither data nor an error, and keeps its data when a later
-- fetch fails.
pub record Query (A : Type 0) : Type 0 where
  pub value : Option A
  pub error : Option Failure

abbrev pub is_none {ℓ} : {A : Type ℓ} → Option A → Bool
is_none none = true
is_none (some a) = false

abbrev pub query_pending : {A : Type 0} → Query A → Bool
query_pending q = is_none q.value && is_none q.error

abbrev pub has_status : ℕ → Option Failure → Bool
has_status status (some (api e)) = e.status == status
has_status status _ = false

abbrev pub has_code : Str → Option Failure → Bool
has_code code (some (api e)) = e.code === code
has_code code _ = false

-- The effect of RootShell on a 401 of the query for the current user.
unfoldable pub not_signed_in : {A : Type 0} → Location → Query A → List Action
not_signed_in (login redirect) me = []
not_signed_in (page href) me = if has_status 401 me.error then go_login (some href) ∷ [] else []

pub data Screen : Type 0 where
  page_alone loading set_password shell : Screen
  not_loaded : Str → Screen

abbrev failed_or_shell : Option Failure → Screen
failed_or_shell none = shell
failed_or_shell (some e) = not_loaded (error_message e)

unfoldable pub root_screen : {A : Type 0} → Location → Query A → Screen
root_screen location me =
    if is_login location
    then page_alone
    else if query_pending me || has_status 401 me.error
    then loading
    else if has_code (codes "PASSWORD_CHANGE_REQUIRED") me.error
    then set_password
    else failed_or_shell me.error

-- "Use another account".
abbrev pub use_another : List Action
use_another = clear_cache ∷ go_login none ∷ []

-- `useCurrentUser`; `none` stands for the error that it throws.
unfoldable pub current_user : {A : Type 0} → Query A → Option A
current_user me = me.value

-- `retry` of the queries: how often the query failed before, and the error.
unfoldable pub retries : ℕ → Failure → Bool
retries count (api e) = not (ltb e.status 500) && ltb count 2
retries count (other_error message) = ltb count 2
retries count unknown = ltb count 2

-- `useSignOut` behind a button that is disabled while it is busy. The request ends with an answer or a
-- failure.
pub data SignOutEvent : Type 0 where
  pressed : SignOutEvent
  ended : Option Failure → SignOutEvent

unfoldable pub sign_out_step : SignOutEvent → Bool → Bool × List Action
sign_out_step pressed busy = if busy then (true, []) else (true, send_sign_out ∷ [])
sign_out_step (ended failure) busy = (false, clear_cache ∷ go_login none ∷ [])

unfoldable pub sign_out_run : List SignOutEvent → Bool → Browser → Bool × Browser
sign_out_run [] busy b = (busy, b)
sign_out_run (e ∷ es) busy b =
    sign_out_run es (sign_out_step e busy).0 (perform_all (sign_out_step e busy).1 b)

-- LoginPage. The browser lets a form with its required fields empty not be submitted.
pub record LoginForm : Type 0 where
  pub email : Str
  pub password : Str
  pub mutation : Mutation

abbrev pub empty_login : LoginForm
empty_login = record { email = []; password = []; mutation = idle }

pub data LoginEvent : Type 0 where
  typed_email typed_password : Str → LoginEvent
  submitted succeeded : LoginEvent
  refused : Failure → LoginEvent
  me_loaded : LoginEvent

abbrev is_blank : Str → Bool
is_blank [] = true
is_blank (c ∷ s) = false

-- `redirect` is the search parameter of the page.
unfoldable pub login_step : Option Str → LoginEvent → LoginForm → LoginForm × List Action
login_step redirect (typed_email email) f = (record f { email = email }, [])
login_step redirect (typed_password password) f = (record f { password = password }, [])
login_step redirect submitted f =
    if is_blank f.email || is_blank f.password || is_pending f.mutation
    then (f, [])
    else (record f { mutation = pending }, send_sign_in f.email f.password ∷ [])
login_step redirect succeeded f = (
  record f { mutation = done },
  clear_cache ∷ invalidate_me ∷ replace_with (safe_redirect redirect) ∷ [],
)
login_step redirect (refused e) f = (record f { mutation = failed e }, [])
login_step redirect me_loaded f = (f, go_home ∷ [])

unfoldable pub login_message : LoginForm → Str
login_message f = elim f.mutation [ failed e ↦ login_error e | _ ↦ [] ]

-- change-password-form.tsx. `toasts` counts the notices that the password was changed, and with each of
-- them `onSuccess` was called.
pub record PasswordForm : Type 0 where
  pub current : Str
  pub next : Str
  pub confirm : Str
  pub mismatch : Bool
  pub mutation : Mutation
  pub toasts : ℕ

pub record PasswordRequest : Type 0 where
  pub current_password : Str
  pub new_password : Str
  pub revoke_other_sessions : Bool

pub data PasswordEvent : Type 0 where
  typed_current typed_next typed_confirm : Str → PasswordEvent
  submitted succeeded : PasswordEvent
  refused : Failure → PasswordEvent

-- What the browser asks of the three fields, and the button.
abbrev pub may_submit : PasswordForm → Bool
may_submit f =
    not (is_blank f.current)
    && leb 10 (length f.next)
    && not (is_blank f.confirm)
    && not (is_pending f.mutation)

abbrev request_of : PasswordForm → PasswordRequest
request_of f = record {
  current_password = f.current;
  new_password = f.next;
  revoke_other_sessions = true;
}

abbrev submit_password : PasswordForm → PasswordForm × Option PasswordRequest
submit_password f =
    if f.next === f.confirm
    then (record f { mismatch = false; mutation = pending }, some (request_of f))
    else (record f { mismatch = true }, none)

unfoldable pub password_step : PasswordEvent → PasswordForm → PasswordForm × Option PasswordRequest
password_step (typed_current s) f = (record f { current = s }, none)
password_step (typed_next s) f = (record f { next = s }, none)
password_step (typed_confirm s) f = (record f { confirm = s }, none)
password_step submitted f = if may_submit f then submit_password f else (f, none)
password_step succeeded f = (
  record f { current = []; next = []; confirm = []; mutation = done; toasts = f.toasts + 1 },
  none,
)
password_step (refused e) f = (record f { mutation = failed e }, none)
