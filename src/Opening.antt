-- ===== src/Opening.antt =====
-- studio/src/features/resources/ResourceEditor.tsx: the component ResourceEditor, which loads a resource
-- and its schema and opens the form of Editor on them.
pub mod Screens
pub mod Tests
use restitch_gateway.Prelude.{
  ℕ, Bool, true, false, not, ◌&&◌, ◌||◌, Option, none, some, List, [], ◌∷◌, ◌++◌, Str, codes, ◌===◌,
  if◌then◌else◌,
}
use restitch_gateway.Access.{Kind, settings, kind_text}
use restitch_gateway.Values.{Fields, end}
use restitch_gateway.SchemaForm.{Schema, ref, Defs}
use restitch_gateway.Editor.{Saved}
use restitch_gateway.Errors.{Failure}
use restitch_gateway.Session.{Query, is_none, has_status}
use restitch_gateway.Pages.{Content, problem, skeleton, content, problem_text}

-- What the server answers about the schemas: those of the settings and of the definitions, and the name
-- of the definition of each kind.
pub record ArtifactSchema : Type 0 where
  pub settings_schema : Schema
  pub defs : Defs
  pub definitions : List (Str × Str)

unfoldable pub definition_of : List (Str × Str) → Str → Option Str
definition_of [] kind = none
definition_of ((k, d) ∷ definitions) kind =
    if k === kind then some d else definition_of definitions kind

abbrev or_empty : Option Str → Str
or_empty none = []
or_empty (some d) = d

abbrev pub is_settings : Kind → Bool
is_settings settings = true
is_settings _ = false

unfoldable pub root_schema : Kind → ArtifactSchema → Schema
root_schema kind s =
    if is_settings kind
    then s.settings_schema
    else ref (codes "#/$defs/" ++ or_empty (definition_of s.definitions (kind_text kind)))

-- The part of a query that DataState reads.
pub record QueryLike (A : Type 0) : Type 0 where
  pub value : Option A
  pub is_pending : Bool
  pub is_error : Bool
  pub error : Option Failure

abbrev pub is_pending_query : {A : Type 0} → Query A → Bool
is_pending_query q = is_none q.value && is_none q.error

abbrev pub is_error_query : {A : Type 0} → Query A → Bool
is_error_query q = not (is_none q.error)

abbrev pub is_new : Query Saved → Bool
is_new resource = has_status 404 resource.error

abbrev pub first_error : Option Failure → Option Failure → Option Failure
first_error none e = e
first_error (some e) _ = some e

-- The data: the schema with the resource, if there is one or it is new.
abbrev pub both :
    Option ArtifactSchema → Option Saved → Bool → Option (ArtifactSchema × Option Saved)
both none resource new = none
both (some s) (some r) new = some (s, some r)
both (some s) none new = if new then some (s, none) else none

unfoldable pub editor_query :
    Query ArtifactSchema → Query Saved → QueryLike (ArtifactSchema × Option Saved)
editor_query schema resource = record {
  value = both schema.value resource.value (is_new resource);
  is_pending = is_pending_query schema || is_pending_query resource && not (is_new resource);
  is_error = is_error_query schema || is_error_query resource && not (is_new resource);
  error = first_error schema.error resource.error;
}

-- What the form is opened on. The key, by which React makes a new form, is that of the resource and its
-- revision.
pub record OpenForm : Type 0 where
  pub key : Str × Str × Str × ℕ
  pub schema : Schema
  pub defs : Defs
  pub initial : Fields
  pub revision : ℕ

abbrev pub body_of : Option Saved → Fields
body_of none = end
body_of (some r) = r.saved_body

abbrev pub revision_of : Option Saved → ℕ
revision_of none = 0
revision_of (some r) = r.saved_revision

unfoldable pub open_form : Str → Kind → Str → ArtifactSchema × Option Saved → OpenForm
open_form env kind name (s, resource) = record {
  key = (env, kind_text kind, name, revision_of resource);
  schema = root_schema kind s;
  defs = s.defs;
  initial = body_of resource;
  revision = revision_of resource;
}

abbrev error_text : Option Failure → Str
error_text none = codes "Request failed"
error_text (some e) = problem_text e

abbrev form_or_skeleton : {A : Type 0} → (A → OpenForm) → Option A → Content OpenForm
form_or_skeleton form none = skeleton
form_or_skeleton form (some a) = content (form a)

-- DataState on the joined query.
unfoldable pub resource_editor :
    Str → Kind → Str → Query ArtifactSchema → Query Saved → Content OpenForm
resource_editor env kind name schema resource =
    let q = editor_query schema resource in
    if q.is_error
    then problem (error_text q.error)
    else if q.is_pending
    then skeleton
    else form_or_skeleton (open_form env kind name) q.value
