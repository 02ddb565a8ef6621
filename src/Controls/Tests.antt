-- ===== src/Controls/Tests.antt =====
-- The segmented control of three ranges, and a dialog that opens again before its content is gone.
use restitch_gateway.Prelude.{◌≡◌, refl, true, false, some, List, [], ◌∷◌, codes, ◌===◌}
use restitch_gateway.Controls.{
  Segment, index_of_value, direction_of, forward, backward, on_key_down, press, segments,
  DialogEvent, set_shown, timed_out, described_by,
}
use restitch_gateway.Controls.Ring.{AreDistinct}

abbrev options : List Segment
options =
    record { value = codes "1h"; label = codes "1 hour" }
    ∷ record { value = codes "6h"; label = codes "6 hours" }
    ∷ record { value = codes "24h"; label = codes "24 hours" }
    ∷ []

options_differ : AreDistinct options
unfolding ◌===◌
options_differ = ((refl, (refl, tt)), ((refl, tt), (tt, tt)))

at_end : index_of_value options (codes "24h") ≡ some 2
unfolding index_of_value ◌===◌
at_end = refl

right : direction_of (codes "ArrowRight") ≡ some forward
unfolding direction_of ◌===◌
right = refl

up : direction_of (codes "ArrowUp") ≡ some backward
unfolding direction_of ◌===◌
up = refl

-- Without a current value, back goes to the last option but one.
lost_back : press options (codes "ArrowLeft") (codes "7d") ≡ codes "6h"
unfolding press on_key_down direction_of index_of_value ◌===◌
lost_back = refl

tab_stops : segments options (codes "7d") ≡ (false, true) ∷ (false, false) ∷ (false, false) ∷ []
unfolding segments ◌===◌
tab_stops = refl

abbrev reopened : List DialogEvent
reopened = set_shown true ∷ set_shown false ∷ set_shown true ∷ timed_out ∷ []

described :
    described_by (codes "n") (some (codes "Hint")) (some (codes "Bad"))
    ≡ some (codes "n-hint n-error")
unfolding described_by
described = refl
