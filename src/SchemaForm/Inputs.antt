-- ===== src/SchemaForm/Inputs.antt =====
-- studio/src/features/resources/schema-form.tsx: the state of FreeField, and what ScalarField says under
-- the input. studio/src/features/resources/secret-fields.ts: which fields offer secret names.
use restitch_gateway.Prelude.{
  ℕ, Bool, false, not, ◌&&◌, Option, none, some, List, [], ◌∷◌, ◌++◌, Str, codes, ◌===◌, leb,
  if◌then◌else◌, includes, every,
}
use restitch_gateway.Text.{trim, split}
use restitch_gateway.Values.{Value, undefined}

-- What `JSON.parse` or `YAML.parse` does with a text.
pub data Parsed : Type 0 where
  parsed : Value → Parsed
  failed : Str → Parsed

pub record FreeState : Type 0 where
  pub text : Str
  pub error : Str

abbrev free_parsed : Str → Parsed → FreeState × Option Value
free_parsed next (parsed v) = (record { text = next; error = [] }, some v)
free_parsed next (failed message) = (record { text = next; error = message }, none)

-- The new state, and what onChange is called with, if it is called.
unfoldable pub free_change : (Str → Parsed) → Str → FreeState × Option Value
free_change parse next =
    if trim next === []
    then (record { text = next; error = [] }, some undefined)
    else free_parsed next (parse next)

pub data Note : Type 0 where
  quiet : Note
  wrong_format : Str → Note
  lint : Str → Note
  hint : Str → Note

abbrev or_default : Option Str → Str
or_default none = codes "This value has the wrong format."
or_default (some h) = h

abbrev hint_note : Option Str → Note
hint_note none = quiet
hint_note (some []) = quiet
hint_note (some (c ∷ h)) = hint (c ∷ h)

-- `test` is the regular expression of the schema, `lint_error` the verdict of the server on the text.
unfoldable pub is_invalid : Option (Str → Bool) → Str → Bool
is_invalid none value = false
is_invalid (some test) value = not (value === []) && not (test value)

unfoldable pub scalar_note : Option (Str → Bool) → Option Str → Str → Str → Note
scalar_note test h value lint_error =
    if is_invalid test value
    then wrong_format (or_default h)
    else if lint_error === []
    then hint_note h
    else lint lint_error

abbrev pub secret_fields : List Str
secret_fields =
    codes "upstream.url"
    ∷ codes "upstream.health_path"
    ∷ codes "upstream.auth.header.value"
    ∷ codes "upstream.auth.basic.username"
    ∷ codes "upstream.auth.basic.password"
    ∷ codes "upstream.auth.oauth2.token_url"
    ∷ codes "upstream.auth.oauth2.client_id"
    ∷ codes "upstream.auth.oauth2.client_secret"
    ∷ codes "composition.steps.*.path"
    ∷ codes "composition.steps.*.headers"
    ∷ codes "composition.steps.*.body"
    ∷ codes "auth.api_keys"
    ∷ codes "auth.jwt.jwks_url"
    ∷ codes "auth.jwt.issuer"
    ∷ codes "auth.jwt.audience"
    ∷ []

abbrev is_digit : ℕ → Bool
is_digit c = leb b'0' c && leb c b'9'

-- `\d+` for a whole part between dots.
unfoldable pub star_index : Str → Str
star_index [] = []
star_index (c ∷ s) = if every is_digit (c ∷ s) then codes "*" else c ∷ s

unfoldable pub star_tail : List Str → Str
star_tail [] = []
star_tail (x ∷ xs) = codes "." ++ (star_index x ++ star_tail xs)

abbrev star_parts : List Str → Str
star_parts [] = []
star_parts (x ∷ xs) = x ++ star_tail xs

-- `path.replace(/\.\d+(?=\.|$)/g, ".*")`: the first part has no dot before it.
unfoldable pub takes_secret : Str → Bool
takes_secret path = includes secret_fields (star_parts (split b'.' path))
