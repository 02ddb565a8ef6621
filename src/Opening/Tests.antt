-- ===== src/Opening/Tests.antt =====
-- A resource that the server does not know, and one whose load fails.
use restitch_gateway.Prelude.{◌≡◌, refl, true, false, none, some, [], ◌∷◌, codes, ◌===◌}
use restitch_gateway.Access.{upstream, kind_text}
use restitch_gateway.Values.{end}
use restitch_gateway.SchemaForm.{flag, lookup}
use restitch_gateway.Editor.{Saved}
use restitch_gateway.Errors.{api, other_error}
use restitch_gateway.Session.{Query}
use restitch_gateway.Pages.{content, problem}
use restitch_gateway.Opening.{
  ArtifactSchema, definition_of, OpenForm, open_form, editor_query, resource_editor,
}
use restitch_gateway.Opening.Screens.{Shows, resource_editor-Shows}

abbrev schema : ArtifactSchema
schema = record {
  settings_schema = flag true;
  defs = (codes "Upstream", flag false) ∷ [];
  definitions = (codes "upstream", codes "Upstream") ∷ [];
}

abbrev schema_query : Query ArtifactSchema
schema_query = record { value = some schema; error = none }

abbrev not_found : Query Saved
not_found = record {
  value = none;
  error = some (
      api (record { status = 404; code = codes "x"; message = codes "not found"; details = none }));
}

abbrev new_form : OpenForm
new_form = open_form (codes "prod") upstream (codes "a") (schema, none)

opens :
    resource_editor (codes "prod") upstream (codes "a") schema_query not_found ≡ content new_form
unfolding resource_editor editor_query
opens = refl

resource_editor-Shows_example :
    Shows
      (codes "prod")
      upstream
      (codes "a")
      schema_query
      not_found
      (resource_editor (codes "prod") upstream (codes "a") schema_query not_found)
resource_editor-Shows_example =
    resource_editor-Shows (codes "prod") upstream (codes "a") schema_query not_found

-- Another failure of the resource shows its message, also while an older copy is there.
offline :
    resource_editor (codes "prod") upstream (codes "a") schema_query (record {
      value = some (record { saved_revision = 3; saved_body = end });
      error = some (other_error (codes "offline"));
    })
    ≡ problem (codes "offline")
unfolding resource_editor editor_query
offline = refl

known : definition_of schema.definitions (kind_text upstream) ≡ some (codes "Upstream")
unfolding definition_of ◌===◌
known = refl

found : lookup schema.defs (codes "Upstream") ≡ some (flag false)
unfolding lookup ◌===◌
found = refl
