-- ===== src/Pages/Users.antt =====
-- studio/src/features/settings/UsersPage.tsx.
pub mod Self
use restitch_gateway.Prelude.{
  ℕ, suc, ◌+◌, ◌≡◌, ◌≢◌, refl, Bool, true, false, ◌&&◌, ◌||◌, not, Option, none, some, List, [],
  ◌∷◌, ◌++◌, Str, codes, ◌===◌, ===_iff, if◌then◌else◌, get_elem?, find, All, All-append, arith,
  Bool-cases, inl, inr,
}
use restitch_gateway.Text.{trim}
use restitch_gateway.Access.{role_text, viewer}
use restitch_gateway.Errors.{Failure}
use restitch_gateway.Editor.{Mutation, idle, pending, failed, done, is_pending}
use restitch_gateway.Session.{is_none}
use restitch_gateway.Pages.{is_empty, sent}

pub record AdminUser : Type 0 where
  pub id : Str
  pub email : Str
  pub role : Str
  pub disabled_at : Option Str
  pub must_change_password : Bool

pub data Status : Type 0 where
  disabled temporary_password active : Status

unfoldable pub status_of : AdminUser → Status
status_of u = elim u.disabled_at [
  | some t ↦ disabled
  | none ↦ if u.must_change_password then temporary_password else active
]

abbrev pub is_self : Str → AdminUser → Bool
is_self me u = u.id === me

abbrev role_or_viewer : Str → Str
role_or_viewer [] = role_text viewer
role_or_viewer (c ∷ r) = c ∷ r

-- One row of the table: what it shows and which of its controls work.
pub record UserRow : Type 0 where
  pub user : AdminUser
  pub you : Bool
  pub role_value : Str
  pub role_disabled : Bool
  pub status : Status
  pub actions : Bool

unfoldable pub user_row : Str → Mutation → AdminUser → UserRow
user_row me set_role u = record {
  user = u;
  you = is_self me u;
  role_value = role_or_viewer u.role;
  role_disabled = is_self me u || is_pending set_role;
  status = status_of u;
  actions = not (is_self me u);
}

pub data UserRequest : Type 0 where
  set_role_of : Str → Str → UserRequest
  enable disable reset_password : Str → UserRequest
  create : Str → Str → UserRequest

-- InviteDialog.
pub record Invite : Type 0 where
  pub email : Str
  pub role : Str
  pub create : Mutation

-- The state of the page. `notices` are the failures that a toast told of.
pub record UsersPage : Type 0 where
  pub inviting : Bool
  pub disabling : Option AdminUser
  pub password : Option (Str × Str)
  pub set_role : Mutation
  pub disable : Mutation
  pub invite : Invite
  pub notices : List Failure

abbrev pub start_invite : Invite
start_invite = record { email = []; role = role_text viewer; create = idle }

abbrev pub start_users : UsersPage
start_users = record {
  inviting = false;
  disabling = none;
  password = none;
  set_role = idle;
  disable = idle;
  invite = start_invite;
  notices = [];
}

-- The controls of a row come with its place in the table.
pub data UserEvent : Type 0 where
  chose_role : ℕ → Str → UserEvent
  pressed_reset pressed_enable pressed_disable : ℕ → UserEvent
  confirmed cancelled dismissed_password : UserEvent
  pressed_invite closed_invite submitted_invite : UserEvent
  typed_email chose_invite_role : Str → UserEvent
  role_set disabled_user : UserEvent
  role_refused disable_refused action_refused invite_refused : Failure → UserEvent
  password_reset : Str → Option Str → UserEvent
  invited : Str → Option Str → UserEvent

abbrev email_of : Option AdminUser → Str
email_of none = []
email_of (some u) = u.email

-- A value that is missing or empty is not shown.
abbrev show_password : Str → Option Str → UsersPage → UsersPage
show_password email none st = st
show_password email (some []) st = st
show_password email (some (c ∷ value)) st = record st { password = some (email, c ∷ value) }

abbrev pub on_row :
    (AdminUser → UsersPage × Option UserRequest)
    → Option AdminUser
    → UsersPage
    → UsersPage × Option UserRequest
on_row act none st = (st, none)
on_row act (some u) st = act u

abbrev pub change_role : Str → Str → UsersPage → AdminUser → UsersPage × Option UserRequest
change_role me role st u =
    if is_self me u || is_pending st.set_role
    then (st, none)
    else (record st { set_role = pending }, some (set_role_of u.id role))

abbrev pub reset_of : Str → UsersPage → AdminUser → UsersPage × Option UserRequest
reset_of me st u = if is_self me u then (st, none) else (st, some (reset_password u.id))

abbrev pub enable_of : Str → UsersPage → AdminUser → UsersPage × Option UserRequest
enable_of me st u =
    if is_self me u || is_none u.disabled_at then (st, none) else (st, some (enable u.id))

abbrev pub ask_disable : Str → UsersPage → AdminUser → UsersPage × Option UserRequest
ask_disable me st u =
    if is_self me u || not (is_none u.disabled_at)
    then (st, none)
    else (record st { disabling = some u }, none)

abbrev pub confirm_disable : Option AdminUser → UsersPage → UsersPage × Option UserRequest
confirm_disable none st = (st, none)
confirm_disable (some u) st =
    if is_pending st.disable
    then (st, none)
    else (record st { disable = pending }, some (disable u.id))

abbrev pub submit_invite : UsersPage → UsersPage × Option UserRequest
submit_invite st =
    if not st.inviting || is_empty (trim st.invite.email) || is_pending st.invite.create
    then (st, none)
    else (
      record st { invite = record st.invite { create = pending } },
      some (create (trim st.invite.email) st.invite.role),
    )

unfoldable pub users_step :
    Str → List AdminUser → UserEvent → UsersPage → UsersPage × Option UserRequest
users_step me users (chose_role i role) st = on_row (change_role me role st) (get_elem? users i) st
users_step me users (pressed_reset i) st = on_row (reset_of me st) (get_elem? users i) st
users_step me users (pressed_enable i) st = on_row (enable_of me st) (get_elem? users i) st
users_step me users (pressed_disable i) st = on_row (ask_disable me st) (get_elem? users i) st
users_step me users confirmed st = confirm_disable st.disabling st
users_step me users cancelled st = (record st { disabling = none }, none)
users_step me users dismissed_password st = (record st { password = none }, none)
users_step me users pressed_invite st = (record st { inviting = true }, none)
users_step me users closed_invite st = (record st { inviting = false }, none)
users_step me users submitted_invite st = submit_invite st
users_step me users (typed_email email) st =
    (record st { invite = record st.invite { email = email } }, none)
users_step me users (chose_invite_role role) st =
    (record st { invite = record st.invite { role = role } }, none)
users_step me users role_set st = (record st { set_role = done }, none)
users_step me users disabled_user st = (record st { disabling = none; disable = done }, none)
users_step me users (role_refused e) st =
    (record st { set_role = failed e; notices = e ∷ st.notices }, none)
users_step me users (disable_refused e) st = (record st { disable = failed e }, none)
users_step me users (action_refused e) st = (record st { notices = e ∷ st.notices }, none)
users_step me users (invite_refused e) st =
    (record st { invite = record st.invite { create = failed e } }, none)
users_step me users (password_reset id value) st =
    (show_password (email_of (find (λ u. u.id === id) users)) value st, none)
users_step me users (invited email value) st = (
  show_password email value (record st {
    inviting = false;
    invite = record { email = []; role = role_text viewer; create = done };
  }),
  none,
)

-- The requests of a run, with the list of users that is shown at each step.
unfoldable pub users_run : Str → List (List AdminUser × UserEvent) → UsersPage → List UserRequest
users_run me [] st = []
users_run me ((users, e) ∷ es) st =
    sent (users_step me users e st).1 (users_run me es (users_step me users e st).0)
