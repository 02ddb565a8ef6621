-- ===== src/Controls/Sheets.antt =====
-- The states of a dialog: dialog.tsx.
use restitch_gateway.Prelude.{◌≡◌, Bool, true, false, not, ◌&&◌, ◌||◌, List, [], ◌∷◌, arith}
use restitch_gateway.Controls.{
  DialogState, mount_dialog, DialogEvent, set_shown, timed_out, dialog_step, dialog_run,
}

pub record IsSound (d : DialogState) : Type 0 where
  -- The native element is open exactly while the owner says so.
  pub native : d.native ≡ d.shown
  -- An open dialog has its content, and no timer that would take it away.
  pub mounted : (not d.shown || d.rendered) ≡ true
  pub kept : (d.shown && d.unmounting) ≡ false
  -- The content of a closed dialog is still there only while the timer runs.
  pub leaving : (d.shown || not d.rendered || d.unmounting) ≡ true

step-IsSound : (e : DialogEvent) (d : DialogState) → IsSound d → IsSound (dialog_step e d)
unfolding dialog_step
step-IsSound (set_shown true) d h = ground (arith, h)
step-IsSound (set_shown false) d h = ground (arith, h)
step-IsSound timed_out d h = ground (arith, h)

run-IsSound : (es : List DialogEvent) (d : DialogState) → IsSound d → IsSound (dialog_run es d)
unfolding dialog_run
run-IsSound [] d h = h
run-IsSound (e ∷ es) d h = run-IsSound es (dialog_step e d) (step-IsSound e d h)

mount-IsSound : (shown : Bool) → IsSound (mount_dialog shown)
unfolding mount_dialog
mount-IsSound true = ground arith
mount-IsSound false = ground arith

-- After any run of a dialog: the native element is open exactly while the owner says so, an open dialog
-- has its content and no timer that would take it away, and a closed dialog has its content only while
-- the timer runs that takes it away.
pub dialog_run-IsSound :
    (shown : Bool) (es : List DialogEvent) → IsSound (dialog_run es (mount_dialog shown))
dialog_run-IsSound shown es = run-IsSound es (mount_dialog shown) (mount-IsSound shown)
