-- ===== src/Pages.antt =====
-- The pages that list what Studio keeps, and what they share: studio/src/components/data-state.tsx,
-- studio/src/components/confirm-dialog.tsx and studio/src/features/dashboard/EnvironmentNav.tsx. The
-- pages stand in the child modules. Times are the texts that the server sent.
pub mod Environments
pub mod Drafts
pub mod Tokens
pub mod Users
pub mod Links
pub mod Tests
use restitch_gateway.Prelude.{
  Bool, true, false, not, ◌&&◌, Option, none, some, List, [], ◌∷◌, Str, codes, filter,
  if◌then◌else◌,
}
use restitch_gateway.Access.{EnvPage, env_pages, can}
use restitch_gateway.Errors.{Failure, api, other_error, unknown}
use restitch_gateway.Session.{Query, is_none}
use restitch_gateway.Editor.{Mutation, failed}
use restitch_gateway.Errors

-- What DataState renders: the message of a failure, a placeholder, the empty state or the content.
pub data Content (A : Type 0) : Type 0 where
  problem : Str → Content A
  skeleton : Content A
  empty_state : Str → Content A
  content : A → Content A

abbrev pub problem_text : Failure → Str
problem_text (api e) = e.message
problem_text (other_error message) = message
problem_text unknown = codes "Request failed"

module _ {A : Type 0} where
  abbrev loaded_state : (A → Bool) → Str → Option A → Content A
  loaded_state empty empty_text none = skeleton
  loaded_state empty empty_text (some a) = if empty a then empty_state empty_text else content a

  unfoldable pub data_state : (A → Bool) → Str → Query A → Content A
  data_state empty empty_text q = elim q.error [
    | some e ↦ problem (problem_text e)
    | none ↦ loaded_state empty empty_text q.value
  ]

abbrev pub is_empty {ℓ} : {A : Type ℓ} → List A → Bool
is_empty [] = true
is_empty (x ∷ xs) = false

-- A missing list counts as an empty one.
abbrev pub or_none {ℓ} : {A : Type ℓ} → Option (List A) → List A
or_none none = []
or_none (some xs) = xs

-- The requests of a run: that of a step, if it sends one, before those of the rest.
abbrev pub sent {ℓ} : {A : Type ℓ} → Option A → List A → List A
sent none xs = xs
sent (some x) xs = x ∷ xs

-- The error text of a mutation, as the dialogs show it.
abbrev pub mutation_error : Mutation → Option Str
mutation_error (failed e) = some (Errors.error_message e)
mutation_error _ = none

-- EnvironmentNav.
unfoldable pub environment_nav : Option Str → List EnvPage
environment_nav role = filter (λ item. can role item.min) env_pages
