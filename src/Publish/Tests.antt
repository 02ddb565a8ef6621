-- ===== src/Publish/Tests.antt =====
-- Runs of a promotion into prod, with two other environments.
use restitch_gateway.Prelude.{
  ℕ, ◌≡◌, refl, true, false, none, List, [], ◌∷◌, Str, codes, ◌===◌, ◌==◌, if◌then◌else◌, includes,
}
use restitch_gateway.Text.{trim, trim_start, is_space}
use restitch_gateway.Editor.{idle, is_pending}
use restitch_gateway.Publish.{
  Version, ready, PanelState, submit_publish, panel_step, can_publish, is_unchanged, send_publish,
  PromoteState, choose_from, choose_version, submit_promote, send_promote, others, source, chosen,
  can_promote, promote_step,
}
use restitch_gateway.Publish.Promote.{
  Reachable, opened, other, is_choice, promote_step-send_promote,
}

abbrev prod : Str
prod = codes "prod"

abbrev names : List Str
names = codes "dev" ∷ prod ∷ codes "stage" ∷ []

abbrev version : ℕ → Version
version n = record { number = n; message = codes "m" }

abbrev versions : Str → List Version
versions e = if e === codes "dev" then version 7 ∷ version 6 ∷ [] else version 3 ∷ version 2 ∷ []

abbrev start : PromoteState
start = record { from = []; version = 0; diff = none; promote = idle }

abbrev picked : PromoteState
picked = (promote_step prod names versions start (choose_version 6)).0

abbrev switched : PromoteState
switched = (promote_step prod names versions picked (choose_from (codes "stage"))).0

picked-Reachable : Reachable prod names versions picked
unfolding is_choice
picked-Reachable = other start (choose_version 6) opened refl

sent :
    (promote_step prod names versions picked submit_promote).1 ≡ send_promote (codes "dev") 6 ∷ []
unfolding promote_step others source chosen can_promote is_pending ◌===◌
sent = refl

promote_step-send_promote_example :
    (includes names (codes "dev") ≡ true)
    × ((codes "dev" === prod) ≡ false)
    × ((6 == 0) ≡ false)
    × (is_pending picked.promote ≡ false)
promote_step-send_promote_example =
    promote_step-send_promote prod names versions picked (codes "dev") 6 picked-Reachable sent

-- The chosen version stays when another environment is chosen: it is sent although stage has no
-- version 6.
stale_version :
    (promote_step prod names versions switched submit_promote).1
    ≡ send_promote (codes "stage") 6 ∷ []
unfolding promote_step others source chosen can_promote is_pending ◌===◌
stale_version = refl

abbrev reviewed : PanelState
reviewed = record {
  message = codes "fix";
  review = ready (record { valid = true; errors = []; diff = codes "+a"; current_version = 3 });
  publish = idle;
}

publishes : (panel_step reviewed submit_publish).1 ≡ send_publish (codes "fix") ∷ []
unfolding panel_step can_publish is_unchanged is_pending trim trim_start is_space ◌===◌
publishes = refl
