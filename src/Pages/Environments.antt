-- ===== src/Pages/Environments.antt =====
-- studio/src/features/environments/EnvironmentsPage.tsx.
use restitch_gateway.Prelude.{
  ℕ, ◌≤◌, ◌≡◌, Bool, true, false, ◌&&◌, ◌||◌, Option, none, some, List, [], ◌∷◌, Str, codes, ◌==◌,
  leb, if◌then◌else◌, length, every, All,
}
use restitch_gateway.Access.{owner, can}
use restitch_gateway.Session.{Query}
use restitch_gateway.Errors.{Failure}
use restitch_gateway.Editor.{Mutation, idle, pending, failed, done, is_pending}
use restitch_gateway.Pages.{Content, data_state, is_empty, or_none}

pub record Environment : Type 0 where
  pub name : Str
  pub created_at : Str
  pub created_by : Str

-- The page for a role: whether it offers the dialog, and its list.
unfoldable pub environments_page :
    Option Str → Query (Option (List Environment)) → Bool × Content (Option (List Environment))
environments_page role q = (
  can role owner,
  data_state (λ d. is_empty (or_none d))
      (if can role owner
        then codes "No environment yet. Create one to start a draft."
        else codes "No environment yet. An owner creates them.")
      q,
)

abbrev pub is_lower : ℕ → Bool
is_lower c = leb b'a' c && leb c b'z'

-- The class [a-z0-9-].
abbrev pub is_name_unit : ℕ → Bool
is_name_unit c = is_lower c || leb b'0' c && leb c b'9' || c == b'-'

-- `namePattern.test(name)`.
unfoldable pub matches_name : Str → Bool
matches_name [] = false
matches_name (c ∷ s) = is_lower c && every is_name_unit s && leb (length s) 62

pub record CreateDialog : Type 0 where
  pub shown : Bool
  pub name : Str
  pub invalid : Bool
  pub mutation : Mutation

abbrev pub start_dialog : CreateDialog
start_dialog = record { shown = false; name = []; invalid = false; mutation = idle }

-- `succeeded` and `refused` are the ends of the request.
pub data CreateEvent : Type 0 where
  shown_dialog submitted succeeded closed : CreateEvent
  typed : Str → CreateEvent
  refused : Failure → CreateEvent

abbrev submit_name : CreateDialog → CreateDialog × Option Str
submit_name d =
    if matches_name d.name
    then (record d { invalid = false; mutation = pending }, some d.name)
    else (record d { invalid = true }, none)

-- A submission ends with the request of its name, if one is sent. The button is disabled while a request
-- is under way.
unfoldable pub create_step : CreateEvent → CreateDialog → CreateDialog × Option Str
create_step shown_dialog d = (record d { shown = true }, none)
create_step (typed name) d = (record d { name = name }, none)
create_step submitted d =
    if d.shown then if is_pending d.mutation then (d, none) else submit_name d else (d, none)
create_step succeeded d = (record d { shown = false; name = []; mutation = done }, none)
create_step (refused e) d = (record d { mutation = failed e }, none)
create_step closed d = (record d { shown = false }, none)

-- A name as the hint of the dialog describes it, of at most 63 units.
pub record IsEnvName (s : Str) : Type 0 where
  pub short : length s ≤ 63
  pub units : All (λ c. is_name_unit c ≡ true) s
  pub letter : (c : ℕ) × (rest : Str) × (s ≡ c ∷ rest) × (b'a' ≤ c) × (c ≤ b'z')
