-- ===== src/Pages/Users/Self.antt =====
-- The requests of UsersPage.tsx and the user who is signed in.
use restitch_gateway.Prelude.{
  ◌≡◌, refl, Bool, false, ◌||◌, not, Option, none, some, List, [], ◌∷◌, Str, ◌===◌, get_elem?, find,
  All, Bool-cases, inl, inr,
}
use restitch_gateway.Text.{trim}
use restitch_gateway.Editor.{is_pending}
use restitch_gateway.Session.{is_none}
use restitch_gateway.Pages.{is_empty, sent}
use restitch_gateway.Pages.Users.{
  AdminUser, is_self, UserRequest, UsersPage, start_users, UserEvent, email_of, show_password,
  on_row, change_role, reset_of, enable_of, ask_disable, confirm_disable, submit_invite, users_step,
  users_run, set_role_of, enable, disable, reset_password, create, chose_role, pressed_reset,
  pressed_enable, pressed_disable, confirmed, cancelled, dismissed_password, pressed_invite,
  closed_invite, submitted_invite, typed_email, chose_invite_role, role_set, disabled_user,
  role_refused, disable_refused, action_refused, invite_refused, password_reset, invited,
}

abbrev pub aims_at : Str → UserRequest → Bool
aims_at me (set_role_of id role) = id === me
aims_at me (enable id) = id === me
aims_at me (disable id) = id === me
aims_at me (reset_password id) = id === me
aims_at me (create email role) = false

abbrev pub IsOther : Str → Option AdminUser → Type 0
IsOther me none = Unit
IsOther me (some u) = is_self me u ≡ false

abbrev pub Spares : Str → UserRequest → Type 0
Spares me r = aims_at me r ≡ false

abbrev pub SparesAny : Str → Option UserRequest → Type 0
SparesAny me none = Unit
SparesAny me (some r) = Spares me r

-- What a step must leave: another user in the dialog, and a request that spares the user, if any.
abbrev IsFair : Str → UsersPage × Option UserRequest → Type 0
IsFair me (st, r) = IsOther me st.disabling × SparesAny me r

module _ (me : Str) (st : UsersPage) (fair : IsOther me st.disabling) where
  change_role-IsFair : (role : Str) (u : AdminUser) → IsFair me (change_role me role st u)
  change_role-IsFair role u = elim (Bool-cases (is_self me u)) [
    | inl e ↦ rw e (fair, tt)
    | inr e ↦ elim (Bool-cases (is_pending st.set_role)) [
      | inl p ↦ rw (e, p) (fair, tt)
      | inr p ↦ rw (e, p) (fair, e)
    ]
  ]

  reset_of-IsFair : (u : AdminUser) → IsFair me (reset_of me st u)
  reset_of-IsFair u = elim (Bool-cases (is_self me u)) [
    | inl e ↦ rw e (fair, tt)
    | inr e ↦ rw e (fair, e)
  ]

  enable_of-IsFair : (u : AdminUser) → IsFair me (enable_of me st u)
  enable_of-IsFair u = elim (Bool-cases (is_self me u)) [
    | inl e ↦ rw e (fair, tt)
    | inr e ↦ elim (Bool-cases (is_none u.disabled_at)) [
      | inl p ↦ rw (e, p) (fair, tt)
      | inr p ↦ rw (e, p) (fair, e)
    ]
  ]

  ask_disable-IsFair : (u : AdminUser) → IsFair me (ask_disable me st u)
  ask_disable-IsFair u = elim (Bool-cases (is_self me u)) [
    | inl e ↦ rw e (fair, tt)
    | inr e ↦ elim (Bool-cases (is_none u.disabled_at)) [
      | inl p ↦ rw (e, p) (e, tt)
      | inr p ↦ rw (e, p) (fair, tt)
    ]
  ]

  confirm_disable-IsFair : (u : Option AdminUser) → IsOther me u → IsFair me (confirm_disable u st)
  confirm_disable-IsFair none h = (fair, tt)
  confirm_disable-IsFair (some u) h = elim (Bool-cases (is_pending st.disable)) [
    | inl p ↦ rw p (fair, tt)
    | inr p ↦ rw p (fair, h)
  ]

  submit_invite-IsFair : IsFair me (submit_invite st)
  submit_invite-IsFair =
      elim (Bool-cases
        (not st.inviting || is_empty (trim st.invite.email) || is_pending st.invite.create)) [
          | inl e ↦ rw e (fair, tt)
          | inr e ↦ rw e (fair, refl)
        ]

  on_row-IsFair :
      (act : AdminUser → UsersPage × Option UserRequest) (u : Option AdminUser)
      → ((v : AdminUser) → IsFair me (act v))
      → IsFair me (on_row act u st)
  on_row-IsFair act none h = (fair, tt)
  on_row-IsFair act (some u) h = h u

  show_password-IsFair :
      (email : Str) (value : Option Str) → IsFair me (show_password email value st, none)
  show_password-IsFair email none = (fair, tt)
  show_password-IsFair email (some []) = (fair, tt)
  show_password-IsFair email (some (c ∷ value)) = (fair, tt)

users_step-IsFair :
    (me : Str) (users : List AdminUser) (e : UserEvent) (st : UsersPage)
    → IsOther me st.disabling
    → IsFair me (users_step me users e st)
unfolding users_step
users_step-IsFair me users (chose_role i role) st h =
    on_row-IsFair me st h (change_role me role st) (get_elem? users i)
      (change_role-IsFair me st h role)
users_step-IsFair me users (pressed_reset i) st h =
    on_row-IsFair me st h (reset_of me st) (get_elem? users i) (reset_of-IsFair me st h)
users_step-IsFair me users (pressed_enable i) st h =
    on_row-IsFair me st h (enable_of me st) (get_elem? users i) (enable_of-IsFair me st h)
users_step-IsFair me users (pressed_disable i) st h =
    on_row-IsFair me st h (ask_disable me st) (get_elem? users i) (ask_disable-IsFair me st h)
users_step-IsFair me users confirmed st h = confirm_disable-IsFair me st h st.disabling h
users_step-IsFair me users cancelled st h = (tt, tt)
users_step-IsFair me users disabled_user st h = (tt, tt)
users_step-IsFair me users submitted_invite st h = submit_invite-IsFair me st h
users_step-IsFair me users (password_reset id value) st h =
    show_password-IsFair me st h (email_of (find (λ u. u.id === id) users)) value
users_step-IsFair me users (invited email value) st h = show_password-IsFair me _ h email value
users_step-IsFair me users dismissed_password st h = (h, tt)
users_step-IsFair me users pressed_invite st h = (h, tt)
users_step-IsFair me users closed_invite st h = (h, tt)
users_step-IsFair me users (typed_email email) st h = (h, tt)
users_step-IsFair me users (chose_invite_role role) st h = (h, tt)
users_step-IsFair me users role_set st h = (h, tt)
users_step-IsFair me users (role_refused e) st h = (h, tt)
users_step-IsFair me users (disable_refused e) st h = (h, tt)
users_step-IsFair me users (action_refused e) st h = (h, tt)
users_step-IsFair me users (invite_refused e) st h = (h, tt)

sent-Spares :
    (me : Str) (r : Option UserRequest) (rs : List UserRequest)
    → SparesAny me r
    → All (Spares me) rs
    → All (Spares me) (sent r rs)
sent-Spares me none rs h hs = hs
sent-Spares me (some r) rs h hs = (h, hs)

run-Spares :
    (me : Str) (es : List (List AdminUser × UserEvent)) (st : UsersPage)
    → IsOther me st.disabling
    → All (Spares me) (users_run me es st)
unfolding users_run
run-Spares me [] st h = tt
run-Spares me ((users, e) ∷ es) st h =
    let (still, spares) = users_step-IsFair me users e st h in
    sent-Spares me (users_step me users e st).1 _ spares
      (run-Spares me es (users_step me users e st).0 still)

-- In any run of the page, whatever lists of users are loaded meanwhile, no request changes the role of
-- the signed-in user, resets their password, or enables or disables them.
pub users_run-Spares :
    (me : Str) (es : List (List AdminUser × UserEvent))
    → All (Spares me) (users_run me es start_users)
users_run-Spares me es = run-Spares me es start_users tt
