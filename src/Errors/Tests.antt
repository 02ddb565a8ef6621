-- ===== src/Errors/Tests.antt =====
-- Runs of the error messages and of the redirect.
use restitch_gateway.Prelude.{◌≡◌, refl, none, some, [], ◌∷◌, codes, ◌===◌}
use restitch_gateway.Text.{starts_with, split, push_front}
use restitch_gateway.Errors.{
  Reply, Response, ApiError, api, get_message, set_message, add_message, add_details, field_errors,
  last_part, safe_redirect,
}

abbrev nothing : Reply
nothing = record {
  error_code = none;
  error_message = none;
  title = none;
  detail = none;
  errors = none;
}

abbrev gone : Response
gone = record { status = 502; status_text = [] }

abbrev invalid : ApiError
invalid = record {
  status = 422;
  code = codes "invalid";
  message = codes "validation failed";
  details = some (
      record { location = some (codes "body.name"); message = some (codes "expected a name") }
      ∷ record { location = some (codes "name"); message = some (codes "second") }
      ∷ record { location = none; message = some (codes "lost") }
      ∷ []);
}

name_message : field_errors (api invalid) ≡ (codes "name", codes "expected a name") ∷ []
unfolding field_errors add_details add_message get_message set_message last_part split push_front
    ◌===◌
name_message = refl

-- A backslash, which the URL parser of a browser takes for a slash, passes.
backslash :
    safe_redirect (some (b'/' ∷ b'\\' ∷ codes "evil.example")) ≡ b'/' ∷ b'\\' ∷ codes "evil.example"
unfolding safe_redirect starts_with
backslash = refl
