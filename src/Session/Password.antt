-- ===== src/Session/Password.antt =====
-- The form for a new password: change-password-form.tsx.
use restitch_gateway.Prelude.{◌≤◌, ◌≡◌, true, false, some, arith, ===_iff, length}
use restitch_gateway.Editor.{pending, is_pending}
use restitch_gateway.Session.{
  PasswordForm, PasswordRequest, PasswordEvent, typed_current, typed_next, typed_confirm, submitted,
  succeeded, refused, password_step,
}

-- A request for a new password is sent only by a submission of the form. It carries the password of the
-- form, which has at least ten units and equals its confirmation, and asks for the other sessions to
-- end; no request was under way, and after it one is, so that the form does not send it twice.
pub password_step-sent :
    (e : PasswordEvent) (f : PasswordForm) (r : PasswordRequest)
    → (password_step e f).1 ≡ some r
    → (e ≡ submitted)
      × (r.new_password ≡ f.next)
      × (f.next ≡ f.confirm)
      × (10 ≤ length f.next)
      × (r.current_password ≡ f.current)
      × (r.revoke_other_sessions ≡ true)
      × (is_pending f.mutation ≡ false)
      × ((password_step e f).0.mutation ≡ pending)
unfolding password_step
password_step-sent (typed_current s) f r h = cc
password_step-sent (typed_next s) f r h = cc
password_step-sent (typed_confirm s) f r h = cc
password_step-sent succeeded f r h = cc
password_step-sent (refused e) f r h = cc
password_step-sent submitted f r h = ground (arith, ===_iff f.next f.confirm)
