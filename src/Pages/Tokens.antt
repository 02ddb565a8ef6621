-- ===== src/Pages/Tokens.antt =====
-- studio/src/features/settings/TokensPage.tsx.
pub mod Secrecy
use restitch_gateway.Prelude.{
  ℕ, suc, ◌+◌, ◌≡◌, ◌≢◌, refl, Bool, true, false, ◌&&◌, ◌||◌, not, Option, none, some, List, [],
  ◌∷◌, map, Str, codes, ◌==◌, if◌then◌else◌, get_elem?, filter, any, All, arith, Bool-cases,
  Option-cases, inl, inr,
}
use restitch_gateway.Text.{trim}
use restitch_gateway.Access.{owner, can}
use restitch_gateway.Session.{Query, is_none}
use restitch_gateway.Errors.{Failure}
use restitch_gateway.Editor.{Mutation, idle, pending, failed, done, is_pending}
use restitch_gateway.Pages.{Content, empty_state, data_state, is_empty, or_none, sent}

pub record Token : Type 0 where
  pub id : Str
  pub name : Str
  pub prefix : Str
  pub created_by : Str
  pub revoked_at : Option Str

unfoldable pub tokens_page :
    Option Str → Query (Option (List Token)) → Content (Option (List Token))
tokens_page role q =
    if can role owner
    then data_state (λ d. is_empty (or_none d))
        (codes "No token yet. Create one for each gateway deployment.") q
    else empty_state (codes "Only owners manage gateway tokens.")

-- OwnerTokens: the dialogs that are open, and the mutation that revokes. `revoking` is a token of the
-- list as it was when its button was pressed.
pub record OwnerTokens : Type 0 where
  pub creating : Bool
  pub revoking : Option Token
  pub revoke : Mutation

abbrev pub start_tokens : OwnerTokens
start_tokens = record { creating = false; revoking = none; revoke = idle }

pub data TokenEvent : Type 0 where
  pressed_new closed_new pressed_confirm cancelled revoked : TokenEvent
  pressed_revoke : ℕ → TokenEvent
  refused : Failure → TokenEvent

-- The button of a row, which a revoked token does not have.
abbrev pub ask_revoke : Option Token → OwnerTokens → OwnerTokens
ask_revoke none st = st
ask_revoke (some t) st = if is_none t.revoked_at then record st { revoking = some t } else st

abbrev pub confirm_revoke : Option Token → OwnerTokens → OwnerTokens × Option Token
confirm_revoke none st = (st, none)
confirm_revoke (some t) st =
    if is_pending st.revoke then (st, none) else (record st { revoke = pending }, some t)

-- A step on the list of tokens that is shown, with the token whose revocation is requested.
unfoldable pub token_step : List Token → TokenEvent → OwnerTokens → OwnerTokens × Option Token
token_step tokens pressed_new st = (record st { creating = true }, none)
token_step tokens closed_new st = (record st { creating = false }, none)
token_step tokens (pressed_revoke i) st = (ask_revoke (get_elem? tokens i) st, none)
token_step tokens pressed_confirm st = confirm_revoke st.revoking st
token_step tokens cancelled st = (record st { revoking = none }, none)
token_step tokens revoked st = (record st { revoking = none; revoke = done }, none)
token_step tokens (refused e) st = (record st { revoke = failed e }, none)

-- The revocations that a run requests, with the list that is shown at each step.
unfoldable pub token_run : List (List Token × TokenEvent) → OwnerTokens → List Token
token_run [] st = []
token_run ((tokens, e) ∷ es) st =
    sent (token_step tokens e st).1 (token_run es (token_step tokens e st).0)

-- NewTokenDialog. `issue` is what the mutation shows of the request `current`; a reset lets go of it.
-- `flying` are the requests with no answer yet. The callbacks of a request run also after a reset.
pub data Issue : Type 0 where
  unasked waiting : Issue
  refused_issue : Failure → Issue
  issued : Str → Issue

pub record TokenDialog : Type 0 where
  pub name : Str
  pub token : Str
  pub issue : Issue
  pub current : Option ℕ
  pub flying : List ℕ
  pub next : ℕ

abbrev pub start_dialog : TokenDialog
start_dialog = record {
  name = [];
  token = [];
  issue = unasked;
  current = none;
  flying = [];
  next = 0;
}

pub data DialogEvent : Type 0 where
  typed : Str → DialogEvent
  submitted closed : DialogEvent
  answered : ℕ → Str → DialogEvent
  failed_with : ℕ → Failure → DialogEvent

abbrev pub is_waiting : Issue → Bool
is_waiting waiting = true
is_waiting _ = false

abbrev pub is_current : Option ℕ → ℕ → Bool
is_current none id = false
is_current (some j) id = j == id

abbrev pub is_flying : List ℕ → ℕ → Bool
is_flying flying id = any (λ j. j == id) flying

abbrev land : List ℕ → ℕ → List ℕ
land flying id = filter (λ j. not (j == id)) flying

-- The form stands in the dialog while no token is shown.
abbrev pub may_issue : TokenDialog → Bool
may_issue d = is_empty d.token && not (is_empty (trim d.name)) && not (is_waiting d.issue)

-- The name that a request is sent for.
unfoldable pub dialog_step : DialogEvent → TokenDialog → TokenDialog × Option Str
dialog_step (typed name) d = (record d { name = name }, none)
dialog_step submitted d =
    if may_issue d
    then (
      record d {
        issue = waiting;
        current = some d.next;
        flying = d.next ∷ d.flying;
        next = d.next + 1;
      },
      some (trim d.name),
    )
    else (d, none)
dialog_step closed d = (record d { token = []; name = []; issue = unasked; current = none }, none)
dialog_step (answered id token) d =
    if is_flying d.flying id
    then (
      record d {
        token = token;
        issue = if is_current d.current id then issued token else d.issue;
        flying = land d.flying id;
      },
      none,
    )
    else (d, none)
dialog_step (failed_with id e) d =
    if is_flying d.flying id
    then (
      record d {
        issue = if is_current d.current id then refused_issue e else d.issue;
        flying = land d.flying id;
      },
      none,
    )
    else (d, none)

unfoldable pub dialog_run : List DialogEvent → TokenDialog → TokenDialog
dialog_run [] d = d
dialog_run (e ∷ es) d = dialog_run es (dialog_step e d).0
