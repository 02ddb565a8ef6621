-- ===== src/Publish.antt =====
-- studio/src/features/publish/VersionsPage.tsx: publishing a draft, the history with its roll backs, and
-- promotion from another environment. What the queries know is an argument, and the answers of the server
-- are events.
pub mod Promote
pub mod Tests
use restitch_gateway.Prelude.{
  ℕ, zero, suc, ◌+◌, Bool, true, false, not, ◌&&◌, ◌||◌, Option, none, some, List, [], ◌∷◌, Str,
  ◌===◌, ◌==◌, if◌then◌else◌, filter,
}
use restitch_gateway.Text.{trim}
use restitch_gateway.Access.{editor, can}
use restitch_gateway.Errors.{Failure}
use restitch_gateway.Editor.{Mutation, idle, pending, failed, done, is_pending}

pub record Version : Type 0 where
  pub number : ℕ
  pub message : Str

-- What a review of the draft answers.
pub record Preview : Type 0 where
  pub valid : Bool
  pub errors : List Str
  pub diff : Str
  pub current_version : ℕ

pub data Review : Type 0 where
  none_yet : Review
  checking : Review
  refused : Failure → Review
  ready : Preview → Review

pub data Request : Type 0 where
  send_preview : Request
  send_publish : Str → Request
  send_rollback : ℕ → Request
  send_promote : Str → ℕ → Request
  toast_published : ℕ → Request
  toast_replaced : Str → ℕ → Request
  close_dialog : Request

-- PublishPanel
pub record PanelState : Type 0 where
  pub message : Str
  pub review : Review
  pub publish : Mutation

pub data PanelEvent : Type 0 where
  type_message : Str → PanelEvent
  press_review : PanelEvent
  review_answered : Preview → PanelEvent
  review_refused : Failure → PanelEvent
  submit_publish : PanelEvent
  published : Version → PanelEvent
  publish_refused : Failure → PanelEvent

unfoldable pub is_checking : Review → Bool
is_checking checking = true
is_checking _ = false

-- `unchanged`, for a preview.
unfoldable pub is_unchanged : Preview → Bool
is_unchanged pv = pv.valid && pv.diff === []

-- The form is there and its button enabled.
unfoldable pub can_publish : PanelState → Review → Bool
can_publish st (ready pv) =
    pv.valid
    && (not (is_unchanged pv) && (not (trim st.message === []) && not (is_pending st.publish)))
can_publish st _ = false

unfoldable pub panel_step : PanelState → PanelEvent → PanelState × List Request
panel_step st (type_message text) = (record st { message = text }, [])
panel_step st press_review =
    if is_checking st.review then (st, []) else (record st { review = checking }, send_preview ∷ [])
panel_step st (review_answered pv) = (record st { review = ready pv }, [])
panel_step st (review_refused e) = (record st { review = refused e }, [])
panel_step st submit_publish =
    if can_publish st st.review
    then (record st { publish = pending }, send_publish st.message ∷ [])
    else (st, [])
panel_step st (published v) =
    (record { message = []; review = none_yet; publish = done }, toast_published v.number ∷ [])
panel_step st (publish_refused e) = (record st { publish = failed e }, [])

-- VersionsPage
pub record PageState : Type 0 where
  pub rollback_to : Option Version
  pub viewing : Option ℕ
  pub promoting : Bool
  pub rollback : Mutation

pub data PageEvent : Type 0 where
  press_promote : PageEvent
  press_view : ℕ → PageEvent
  press_roll_back : Version → PageEvent
  close_roll_back : PageEvent
  confirm_roll_back : PageEvent
  rolled_back : Version → PageEvent
  roll_back_refused : Failure → PageEvent
  close_view : PageEvent
  close_promote : PageEvent

unfoldable pub current_number : List Version → ℕ
current_number [] = 0
current_number (v ∷ vs) = v.number

-- The row of a version has the button Roll back.
unfoldable pub can_roll_back : Option Str → List Version → Version → Bool
can_roll_back role versions v = can role editor && not (v.number == current_number versions)

abbrev confirmed : PageState → Option Version → PageState × List Request
confirmed st none = (st, [])
confirmed st (some v) =
    if is_pending st.rollback
    then (st, [])
    else (record st { rollback = pending }, send_rollback v.number ∷ [])

unfoldable pub page_step :
    Option Str → List Version → PageState → PageEvent → PageState × List Request
page_step role versions st press_promote =
    (if can role editor then record st { promoting = true } else st, [])
page_step role versions st (press_view n) = (record st { viewing = some n }, [])
page_step role versions st (press_roll_back v) =
    (if can_roll_back role versions v then record st { rollback_to = some v } else st, [])
page_step role versions st close_roll_back = (record st { rollback_to = none }, [])
page_step role versions st confirm_roll_back = confirmed st st.rollback_to
page_step role versions st (rolled_back v) =
    (record st { rollback_to = none; rollback = done }, toast_published v.number ∷ [])
page_step role versions st (roll_back_refused e) = (record st { rollback = failed e }, [])
page_step role versions st close_view = (record st { viewing = none }, [])
page_step role versions st close_promote = (record st { promoting = false }, [])

-- PromoteDialog. `from` is empty and `version` 0 until the user chooses.
pub record PromoteState : Type 0 where
  pub from : Str
  pub version : ℕ
  pub diff : Option Str
  pub promote : Mutation

pub data PromoteEvent : Type 0 where
  choose_from : Str → PromoteEvent
  choose_version : ℕ → PromoteEvent
  submit_promote : PromoteEvent
  promoted : Str → PromoteEvent
  promote_refused : Failure → PromoteEvent
  close : PromoteEvent

abbrev pub first_or : List Str → Str → Str
first_or [] s = s
first_or (x ∷ xs) s = x

-- `env` is the environment of the page, `environments` the names of all, and `versions` what is known
-- of the versions of an environment.
module _ (env : Str) (environments : List Str) (versions : Str → List Version) where
  unfoldable pub others : List Str
  others = filter (λ e. not (e === env)) environments

  unfoldable pub source : PromoteState → Str
  source st = if st.from === [] then first_or others [] else st.from

  unfoldable pub chosen : PromoteState → ℕ
  chosen st = if st.version == 0 then current_number (versions (source st)) else st.version

  -- The form is there and its button enabled.
  unfoldable pub can_promote : PromoteState → Option Str → List Str → Bool
  can_promote st (some diff) es = false
  can_promote st none [] = false
  can_promote st none (e ∷ es) = not (chosen st == 0) && not (is_pending st.promote)

  unfoldable pub promote_step : PromoteState → PromoteEvent → PromoteState × List Request
  promote_step st (choose_from name) = (record st { from = name }, [])
  promote_step st (choose_version n) = (record st { version = n }, [])
  promote_step st submit_promote =
      if can_promote st st.diff others
      then (record st { promote = pending }, send_promote (source st) (chosen st) ∷ [])
      else (st, [])
  promote_step st (promoted text) =
      (record st { promote = done; diff = some text }, toast_replaced (source st) (chosen st) ∷ [])
  promote_step st (promote_refused e) = (record st { promote = failed e }, [])
  promote_step st close = (record st { diff = none; promote = idle }, close_dialog ∷ [])
