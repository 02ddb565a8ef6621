-- ===== src/Access/Tests.antt =====
-- Runs of the access rules.
use restitch_gateway.Prelude.{◌≡◌, refl, true, none, some, [], ◌∷◌, codes, ◌===◌, filter, map}
use restitch_gateway.Text.{starts_with}
use restitch_gateway.Access.{
  is_role, role_index, can, env_pages, no_env, env, uri_error, env_of_segment, decoded, segment,
  strip, current_env, auth, is_singleton,
}

viewer_pages :
    map (λ p. p.chord) (filter (λ p. can (some (codes "viewer")) p.min) env_pages)
    ≡ codes "o" ∷ codes "d" ∷ codes "p" ∷ []
unfolding can is_role role_index ◌===◌
viewer_pages = refl

env_of_draft : current_env some (codes "/environments/prod/draft") ≡ env (codes "prod")
unfolding starts_with segment strip decoded env_of_segment current_env
env_of_draft = refl

env_of_settings : current_env some (codes "/settings/users") ≡ no_env
unfolding starts_with segment strip decoded env_of_segment current_env
env_of_settings = refl

-- A malformed escape in the address makes `decodeURIComponent` throw.
env_of_malformed : current_env (λ _. none) (codes "/environments/%/draft") ≡ uri_error
unfolding starts_with segment strip decoded env_of_segment current_env
env_of_malformed = refl

auth_is_singleton : is_singleton auth ≡ true
unfolding is_singleton ◌===◌
auth_is_singleton = refl
