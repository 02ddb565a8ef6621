-- ===== src/Errors.antt =====
-- studio/src/api-client.ts, studio/src/lib/errors.ts and studio/src/features/auth/LoginPage.tsx: failed
-- responses, what the user is told about them, and where a sign-in leads.
pub mod Laws
pub mod Tests
use restitch_gateway.Prelude.{
  ℕ, Bool, true, false, not, ◌&&◌, ◌||◌, Option, none, some, List, [], ◌∷◌, Str, codes, ◌===◌, ◌==◌,
  if◌then◌else◌, includes,
}
use restitch_gateway.Text.{starts_with, split}

-- One entry of the details of a 422; a missing or other value is `none`.
pub record Detail : Type 0 where
  pub location : Option Str
  pub message : Option Str

-- The body of a failed response: the shape of auth-all, and the RFC 7807 problem.
pub record Reply : Type 0 where
  pub error_code : Option Str
  pub error_message : Option Str
  pub title : Option Str
  pub detail : Option Str
  pub errors : Option (List Detail)

pub record Response : Type 0 where
  pub status : ℕ
  pub status_text : Str

pub record ApiError : Type 0 where
  pub status : ℕ
  pub code : Str
  pub message : Str
  pub details : Option (List Detail)

-- An ApiError, another Error, or any other value.
pub data Failure : Type 0 where
  api : ApiError → Failure
  other_error : Str → Failure
  unknown : Failure

-- `a ?? b`.
abbrev pub if_missing : Option Str → Str → Str
if_missing none b = b
if_missing (some a) b = a

-- `a || b`, of a text that may be missing.
abbrev pub if_blank : Option Str → Str → Str
if_blank none b = b
if_blank (some []) b = b
if_blank (some (c ∷ a)) b = c ∷ a

abbrev problem_error : Reply → Response → Failure
problem_error body response = api (record {
  status = response.status;
  code = if_missing body.title (codes "http_error");
  message =
      if_blank body.detail
        (if_blank body.title (if_blank (some response.status_text) (codes "request failed")));
  details = body.errors;
})

abbrev pub auth_error : Reply → Response → Option Str → Failure
auth_error body response none = problem_error body response
auth_error body response (some []) = problem_error body response
auth_error body response (some (c ∷ code)) = api (record {
  status = response.status;
  code = c ∷ code;
  message = if_missing body.error_message response.status_text;
  details = none;
})

-- `toApiError` for a body; without a response the error stays as it is.
unfoldable pub to_api_error : Failure → Reply → Option Response → Failure
to_api_error original body none = original
to_api_error original body (some response) = auth_error body response body.error_code

unfoldable pub error_message : Failure → Str
error_message (api e) =
    if e.status == 429
    then codes "Too many attempts. Wait and try again."
    else if e.code === codes "INSUFFICIENT_ROLE"
    then codes "Your role cannot do this."
    else if_blank (some e.message) (codes "Request failed.")
error_message (other_error message) = message
error_message unknown = codes "Request failed."

unfoldable pub last_part : List Str → Str
last_part [] = []
last_part (x ∷ []) = x
last_part (x ∷ y ∷ xs) = last_part (y ∷ xs)

abbrev pub Messages : Type 0
Messages = List (Str × Str)

unfoldable pub get_message : Messages → Str → Str
get_message [] field = []
get_message ((f, m) ∷ out) field = if f === field then m else get_message out field

unfoldable pub set_message : Messages → Str → Str → Messages
set_message [] field message = (field, message) ∷ []
set_message ((f, m) ∷ out) field message =
    if f === field then (f, message) ∷ out else (f, m) ∷ set_message out field message

-- `if (!out[field]) out[field] = message`.
unfoldable pub add_message : Messages → Str → Str → Messages
add_message out field message =
    if get_message out field === [] then set_message out field message else out

abbrev pub add_located : Messages → Option Str → Option Str → Messages
add_located out none message = out
add_located out (some location) none = out
add_located out (some location) (some message) =
    add_message out (last_part (split b'.' location)) message

unfoldable pub add_details : Messages → List Detail → Messages
add_details out [] = out
add_details out (d ∷ details) = add_details (add_located out d.location d.message) details

abbrev pub details_of : Option (List Detail) → List Detail
details_of none = []
details_of (some details) = details

-- The own fields of the result; the first message for a field wins.
unfoldable pub field_errors : Failure → Messages
field_errors (api e) = add_details [] (details_of e.details)
field_errors (other_error message) = []
field_errors unknown = []

-- `safeRedirect`.
unfoldable pub safe_redirect : Option Str → Str
safe_redirect none = codes "/"
safe_redirect (some []) = codes "/"
safe_redirect (some (c ∷ r)) =
    if not (starts_with (c ∷ r) (codes "/"))
      || starts_with (c ∷ r) (codes "//")
      || starts_with (c ∷ r) (codes "/login")
    then codes "/"
    else c ∷ r

-- What the sign-in form says after a failure.
unfoldable pub login_error : Failure → Str
login_error (api e) =
    if e.status == 429
    then codes "Too many attempts. Wait and try again."
    else if e.status == 401
    then if_blank (some e.message) (codes "The email or password is wrong.")
    else error_message (api e)
login_error (other_error message) = error_message (other_error message)
login_error unknown = error_message unknown
