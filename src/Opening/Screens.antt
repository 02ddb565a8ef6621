-- ===== src/Opening/Screens.antt =====
-- When ResourceEditor opens its form, and on what.
use restitch_gateway.Prelude.{
  ℕ, suc, ◌≡◌, ◌⊎◌, subst, sym, refl, true, false, inl, inr, Option, none, some, ◌++◌, Str, codes,
  arith, Bool-cases, Option-cases,
}
use restitch_gateway.Text.{starts_with}
use restitch_gateway.Access.{Kind, kind_text}
use restitch_gateway.SchemaForm.{Schema, ref_name, lookup, resolve}
use restitch_gateway.Editor.{Saved}
use restitch_gateway.Session.{Query, has_status}
use restitch_gateway.Pages.{Content, problem, skeleton, content, problem_text}
use restitch_gateway.Errors.{Failure}
use restitch_gateway.Opening.{
  ArtifactSchema, definition_of, is_settings, root_schema, editor_query, OpenForm, open_form,
  resource_editor,
}

-- The resource of a form: the one that was loaded, or none if the server knows of none.
pub data IsResource (q : Query Saved) : Option Saved → Type 0 where
  loaded : (r : Saved) → q.value ≡ some r → q.error ≡ none → IsResource q (some r)
  created : q.value ≡ none → has_status 404 q.error ≡ true → IsResource q none
  -- The server has forgotten a resource that was loaded before.
  forgotten : (r : Saved) → q.value ≡ some r → has_status 404 q.error ≡ true → IsResource q (some r)

-- No failure of the resource counts against it: there is none, or the server does not know it.
abbrev IsFine : Query Saved → Type 0
IsFine q = (q.error ≡ none) ⊎ (has_status 404 q.error ≡ true)

-- What ResourceEditor shows for the states of its two queries. Cases for different screens exclude each
-- other.
pub data Shows (env : Str) (kind : Kind) (name : Str) (schema : Query ArtifactSchema)
    (resource : Query Saved) : Content OpenForm → Type 0 where
  schema_failed :
      (e : Failure)
      → schema.error ≡ some e
      → Shows env kind name schema resource (problem (problem_text e))
  resource_failed :
      (e : Failure)
      → schema.error ≡ none
      → resource.error ≡ some e
      → has_status 404 resource.error ≡ false
      → Shows env kind name schema resource (problem (problem_text e))
  schema_waits :
      schema.error ≡ none
      → schema.value ≡ none
      → IsFine resource
      → Shows env kind name schema resource skeleton
  resource_waits :
      schema.error ≡ none
      → resource.value ≡ none
      → resource.error ≡ none
      → Shows env kind name schema resource skeleton
  opened :
      (s : ArtifactSchema) (o : Option Saved)
      → schema.error ≡ none
      → schema.value ≡ some s
      → IsResource resource o
      → Shows env kind name schema resource (content (open_form env kind name (s, o)))

as_shown :
    (env : Str) (kind : Kind) (name : Str) (schema : Query ArtifactSchema) (resource : Query Saved)
    (c : Content OpenForm)
    → Shows env kind name schema resource c
    → resource_editor env kind name schema resource ≡ c
    → Shows env kind name schema resource (resource_editor env kind name schema resource)
as_shown env kind name schema resource c shows e =
    subst (Shows env kind name schema resource) (sym e) shows

-- ResourceEditor shows the message of the schema's failure, else that of the resource's failure unless
-- it is a 404, else a skeleton while the schema, or a resource that may exist, is not there, else the form
-- on the schema and the loaded resource, or, after a 404, on what was loaded before or on nothing with
-- revision 0.
pub resource_editor-Shows :
    (env : Str) (kind : Kind) (name : Str) (schema : Query ArtifactSchema) (resource : Query Saved)
    → Shows env kind name schema resource (resource_editor env kind name schema resource)
unfolding resource_editor editor_query
resource_editor-Shows env kind name schema resource =
    let by = as_shown env kind name schema resource in
    elim (Option-cases schema.error) [
      | inr (e, se) ↦ by _ (schema_failed e se) (ground (arith, se))
      | inl se ↦ elim (Bool-cases (has_status 404 resource.error)) [
        | inl gone ↦ elim (Option-cases schema.value) [
          | inl sv ↦ by _ (schema_waits se sv (inr gone)) (ground (arith, se, sv, gone))
          | inr (s, sv) ↦ elim (Option-cases resource.value) [
            | inl rv ↦
                by _ (opened s none se sv (created rv gone)) (ground (arith, se, sv, rv, gone))
            | inr (r, rv) ↦
                by _ (opened s (some r) se sv (forgotten r rv gone))
                  (ground (arith, se, sv, rv, gone))
          ]
        ]
        | inr other ↦ elim (Option-cases resource.error) [
          | inr (e, re) ↦ by _ (resource_failed e se re other) (ground (arith, se, re, other))
          | inl re ↦ elim (Option-cases schema.value) [
            | inl sv ↦ by _ (schema_waits se sv (inl re)) (ground (arith, se, sv, re))
            | inr (s, sv) ↦ elim (Option-cases resource.value) [
              | inl rv ↦ by _ (resource_waits se rv re) (ground (arith, se, sv, rv, re))
              | inr (r, rv) ↦
                  by _ (opened s (some r) se sv (loaded r rv re)) (ground (arith, se, sv, rv, re))
            ]
          ]
        ]
      ]
    ]

prefixed : (name : Str) → ref_name (codes "#/$defs/" ++ name) ≡ name
unfolding ref_name starts_with
prefixed name = refl

-- The form of a kind other than the settings is made from the definition that the server names for it:
-- resolving the root schema is resolving that definition, with one unit of fuel less.
pub resolve-root_schema :
    (kind : Kind) (s : ArtifactSchema) (name : Str) (target : Schema) (fuel : ℕ)
    → is_settings kind ≡ false
    → definition_of s.definitions (kind_text kind) ≡ some name
    → lookup s.defs name ≡ some target
    → resolve (suc fuel) s.defs (root_schema kind s) ≡ resolve fuel s.defs target
unfolding root_schema resolve
resolve-root_schema kind s name target fuel other known found =
    rw (other, known) (rw (resolve, prefixed name) (rw found refl))
