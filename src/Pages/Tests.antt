-- ===== src/Pages/Tests.antt =====
-- Runs of the pages: a name that is sent, an editor that opens, a token whose answer comes after its
-- dialog was closed, and an owner among the users.
use restitch_gateway.Prelude.{
  ◌≡◌, ◌↔◌, refl, true, false, none, some, List, [], ◌∷◌, Str, codes, ◌===◌, All,
}
use restitch_gateway.Text.{trim, trim_start, is_space}
use restitch_gateway.Access.{settings, upstream, is_singleton, env_pages}
use restitch_gateway.Editor.{idle, failed, is_pending}
use restitch_gateway.Errors.{unknown}
use restitch_gateway.Pages.Environments
use restitch_gateway.Pages.Environments.{CreateDialog, create_step, matches_name}
use restitch_gateway.Pages.Drafts
use restitch_gateway.Pages.Drafts.{NewResource, resource_step, target_name, resource_step-opened}
use restitch_gateway.Pages.Tokens
use restitch_gateway.Pages.Tokens.{
  Token, TokenDialog, TokenEvent, OwnerTokens, start_tokens, start_dialog, token_step, token_run,
  dialog_step, dialog_run,
}
use restitch_gateway.Pages.Tokens.Secrecy.{CameWith, dialog_run-CameWith}
use restitch_gateway.Pages.Users.{
  AdminUser, UserEvent, pressed_reset, pressed_disable, confirmed, reset_password, disable,
  start_users, users_step, users_run,
}
use restitch_gateway.Pages.Links.{HasLink, HasChord, environment_nav-chord_targets}
use restitch_gateway.Pages.Users.Self.{Spares, users_run-Spares}

abbrev staging : CreateDialog
staging = record { shown = true; name = codes "staging"; invalid = true; mutation = idle }

staging_sent : (create_step Environments.submitted staging).1 ≡ some (codes "staging")
unfolding create_step matches_name is_pending
staging_sent = refl

-- The dialog keeps the name and its error over a cancellation.
cancelled_keeps :
    (create_step Environments.shown_dialog (create_step Environments.closed staging).0).0 ≡ staging
unfolding create_step
cancelled_keeps = refl

abbrev settings_dialog : NewResource
settings_dialog = record { shown = true; kind = settings; name = [] }

settings_opened :
    (resource_step Drafts.submitted settings_dialog).1 ≡ some (settings, codes "default")
unfolding resource_step target_name is_singleton ◌===◌
settings_opened = refl

-- A name that the hint rules out opens an editor.
odd_name :
    (resource_step Drafts.submitted
      (record { shown = true; kind = upstream; name = codes "a/b c" })).1
    ≡ some (upstream, codes "a/b c")
unfolding resource_step target_name is_singleton ◌===◌ trim trim_start is_space
odd_name = refl

abbrev live_token : Token
live_token = record {
  id = codes "t1";
  name = codes "eu";
  prefix = codes "rg_";
  created_by = codes "a";
  revoked_at = none;
}

abbrev dead_token : Token
dead_token = record live_token { id = codes "t2"; revoked_at = some (codes "2026") }

abbrev token_events : List (List Token × TokenEvent)
token_events =
    (dead_token ∷ live_token ∷ [], Tokens.pressed_revoke 0)
    ∷ (dead_token ∷ live_token ∷ [], Tokens.pressed_confirm)
    ∷ (dead_token ∷ live_token ∷ [], Tokens.pressed_revoke 1)
    ∷ (dead_token ∷ [], Tokens.pressed_confirm)
    ∷ []

token_events_revoke : token_run token_events start_tokens ≡ live_token ∷ []
unfolding token_run token_step is_pending
token_events_revoke = refl

abbrev shown_token : TokenDialog
shown_token = record {
  name = codes "eu";
  token = codes "secret";
  issue = Tokens.issued (codes "secret");
  current = some 0;
  flying = [];
  next = 1;
}

abbrev reopened : List Tokens.DialogEvent
reopened =
    Tokens.answered 0 (codes "secret")
    ∷ Tokens.typed (codes "eu")
    ∷ Tokens.submitted
    ∷ Tokens.answered 1 (codes "next")
    ∷ []

dialog_run-CameWith_example :
    CameWith reopened (dialog_run reopened (dialog_step Tokens.closed shown_token).0)
dialog_run-CameWith_example = dialog_run-CameWith shown_token reopened

-- The answer to a request that the user cancelled puts its token into the closed dialog.
late_token :
    (dialog_run
      (Tokens.typed (codes "eu")
        ∷ Tokens.submitted
        ∷ Tokens.closed
        ∷ Tokens.answered 0 (codes "secret")
        ∷ [])
      start_dialog).token
    ≡ codes "secret"
unfolding dialog_run dialog_step trim trim_start is_space
late_token = refl

-- The error of a refused revocation is kept for the next token.
stale_error :
    (token_step
      (live_token ∷ [])
      (Tokens.pressed_revoke 0)
      (token_step
        (live_token ∷ [])
        Tokens.cancelled
        (token_step (live_token ∷ []) (Tokens.refused unknown) start_tokens).0).0).0.revoke
    ≡ failed unknown
unfolding token_step
stale_error = refl

abbrev owner_id : Str
owner_id = codes "u1"

abbrev users : List AdminUser
users =
    record {
      id = owner_id;
      email = codes "o@x";
      role = codes "owner";
      disabled_at = none;
      must_change_password = false;
    }
    ∷ record {
      id = codes "u2";
      email = codes "v@x";
      role = codes "viewer";
      disabled_at = none;
      must_change_password = true;
    }
    ∷ []

abbrev user_events : List (List AdminUser × UserEvent)
user_events =
    (users, pressed_reset 0)
    ∷ (users, pressed_disable 0)
    ∷ (users, confirmed)
    ∷ (users, pressed_reset 1)
    ∷ (users, pressed_disable 1)
    ∷ (users, confirmed)
    ∷ []

user_events_send :
    users_run owner_id user_events start_users
    ≡ reset_password (codes "u2") ∷ disable (codes "u2") ∷ []
unfolding users_run users_step ◌===◌ is_pending
user_events_send = refl

users_run-Spares_example : All (Spares owner_id) (users_run owner_id user_events start_users)
users_run-Spares_example = users_run-Spares owner_id user_events

environment_nav-chord_targets_example :
    All
      (λ p. HasLink (some (codes "viewer")) p ↔ HasChord (some (codes "viewer")) (codes "prod") p)
      env_pages
environment_nav-chord_targets_example =
    environment_nav-chord_targets (some (codes "viewer")) 112 (codes "rod")
