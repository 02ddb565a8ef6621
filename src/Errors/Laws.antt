-- ===== src/Errors/Laws.antt =====
-- What users read after a failure, and where a sign-in leads.
use restitch_gateway.Prelude.{
  ◌≡◌, refl, ◌∙◌, Bool, true, false, not, ◌||◌, Option, none, some, List, [], ◌∷◌, arith, Str,
  codes, ◌===◌, ===_iff, ◌==◌, if◌then◌else◌, Bool-cases, inl, inr, ◌⊎◌,
}
use restitch_gateway.Text.{starts_with, split}
use restitch_gateway.Errors.{
  auth_error, details_of, Detail, Reply, Response, ApiError, Failure, api, other_error, unknown,
  if_blank, to_api_error, error_message, Messages, get_message, set_message, add_message,
  add_located, add_details, field_errors, last_part, safe_redirect,
}

abbrev no_text : Str → Bool
no_text s = s === []

if_blank-full : (a : Option Str) (b : Str) → no_text b ≡ false → no_text (if_blank a b) ≡ false
unfolding ◌===◌
if_blank-full none b h = h
if_blank-full (some []) b h = h
if_blank-full (some (c ∷ a)) b h = refl

api_message_full : (e : ApiError) → no_text (error_message (api e)) ≡ false
unfolding error_message ◌===◌
api_message_full e = elim (Bool-cases (e.status == 429)) [
  | inl limited ↦ rw limited refl
  | inr other ↦ elim (Bool-cases (e.code === codes "INSUFFICIENT_ROLE")) [
    | inl role ↦ rw (other, role) refl
    | inr code ↦ rw (other, code) (if_blank-full (some e.message) (codes "Request failed.") refl)
  ]
]

auth_error_api :
    (body : Reply) (response : Response) (code : Option Str)
    → (e : ApiError) × (auth_error body response code ≡ api e) × (e.status ≡ response.status)
auth_error_api body response none = (_, refl, refl)
auth_error_api body response (some []) = (_, refl, refl)
auth_error_api body response (some (c ∷ code)) = (_, refl, refl)

-- A failed response becomes an ApiError with the status of the response, and whatever its body says
-- or leaves out, the user gets a message that is not empty.
pub to_api_error-error_message :
    (original : Failure) (body : Reply) (response : Response)
    → (e : ApiError) × (to_api_error original body (some response) ≡ api e)
      × (e.status ≡ response.status)
      × ((error_message (api e) === []) ≡ false)
unfolding to_api_error
to_api_error-error_message original body response =
    let (e, is_e, status) = auth_error_api body response body.error_code in
    (e, is_e, status, api_message_full e)

-- The message of a detail, if it is for the field.
abbrev message_for : Option Str → Option Str → Str → Str
message_for none message field = []
message_for (some location) none field = []
message_for (some location) (some message) field =
    if last_part (split b'.' location) === field then message else []

-- The first message for a field that is not empty.
abbrev pub first_message : List Detail → Str → Str
first_message [] field = []
first_message (d ∷ details) field =
    if message_for d.location d.message field === []
    then first_message details field
    else message_for d.location d.message field

get-set_message :
    (out : Messages) (f g m : Str)
    → get_message (set_message out f m) g ≡ (if f === g then m else get_message out g)
unfolding get_message set_message
get-set_message [] f g m = refl
get-set_message ((h, n) ∷ out) f g m =
    ground (arith, get-set_message out f g m, ===_iff h f, ===_iff h g, ===_iff f g)

keep :
    (out : Messages) (g : Str)
    → get_message out g ≡ (if get_message out g === [] then [] else get_message out g)
keep out g = ground (arith, ===_iff (get_message out g) [])

get-add_located :
    (out : Messages) (location message : Option Str) (g : Str)
    → get_message (add_located out location message) g
      ≡ (if get_message out g === [] then message_for location message g else get_message out g)
unfolding add_message
get-add_located out none message g = keep out g
get-add_located out (some location) none g = keep out g
get-add_located out (some location) (some message) g =
    let f = last_part (split b'.' location) in
    ground (arith, get-set_message out f g message, ===_iff f g, ===_iff (get_message out g) [])

get-add_details :
    (details : List Detail) (out : Messages) (g : Str)
    → get_message (add_details out details) g
      ≡ (if get_message out g === [] then first_message details g else get_message out g)
unfolding add_details
get-add_details [] out g = keep out g
get-add_details (d ∷ details) out g =
    let here = get-add_located out d.location d.message g in
    let rest = get-add_details details (add_located out d.location d.message) g in
    elim (Bool-cases (get_message out g === [])) [
      | inl e ↦ rest ∙ rw (here, e) refl
      | inr e ↦ rest ∙ rw (here, e) (rw e refl)
    ]

-- The form shows, for each field, the first message of the details whose location ends in the name
-- of the field and that is not empty; a failure that is no ApiError shows none.
pub field_errors_first :
    (e : ApiError) (message field : Str)
    → (get_message (field_errors (api e)) field ≡ first_message (details_of e.details) field)
      × (field_errors (other_error message) ≡ [])
      × (field_errors unknown ≡ [])
unfolding field_errors get_message ◌===◌
field_errors_first e message field = (get-add_details (details_of e.details) [] field, refl, refl)

abbrev pub IsOwnPath : Str → Type 0
IsOwnPath r =
    (starts_with r (codes "/") ≡ true)
    × (starts_with r (codes "//") ≡ false)
    × (starts_with r (codes "/login") ≡ false)

root_path : IsOwnPath (codes "/")
unfolding starts_with
root_path = (refl, refl, refl)

abbrev refused : Str → Bool
refused r =
    not (starts_with r (codes "/")) || starts_with r (codes "//") || starts_with r (codes "/login")

accepted_path : (r : Str) → refused r ≡ false → IsOwnPath r
accepted_path r h = (ground (arith, h), ground (arith, h), ground (arith, h))

-- After a sign-in the user is sent to a path that begins with one slash and not with two and that
-- is not the sign-in page. It is the redirect of the link, or the first page.
pub safe_redirect-IsOwnPath :
    (r : Option Str)
    → IsOwnPath (safe_redirect r) × ((safe_redirect r ≡ codes "/") ⊎ (some (safe_redirect r) ≡ r))
unfolding safe_redirect
safe_redirect-IsOwnPath none = (root_path, inl refl)
safe_redirect-IsOwnPath (some []) = (root_path, inl refl)
safe_redirect-IsOwnPath (some (c ∷ r)) = elim (Bool-cases (refused (c ∷ r))) [
  | inl bad ↦ rw bad (root_path, inl refl)
  | inr good ↦ rw good (accepted_path (c ∷ r) good, inr refl)
]
