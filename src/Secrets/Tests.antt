-- ===== src/Secrets/Tests.antt =====
-- Runs of the picker.
use restitch_gateway.Prelude.{All, ◌≡◌, refl, true, some, List, [], ◌∷◌, Str, codes, ◌===◌}
use restitch_gateway.Text.{
  trim, trim_start, is_space, contains, index_of, index_from, starts_with, split, push_front,
}
use restitch_gateway.Secrets.Picks.{IsUsable}
use restitch_gateway.Secrets.Panel.{
  new_name_of, panel_of, picker_panel, buttons, PressesOne, picker_panel-on_key,
}
use restitch_gateway.Secrets.{
  is_var_name, reference, insert_reference, on_pick, PickerState, pick, shown, is_new, on_enter,
  on_key, use_text,
}

abbrev same : Str → Str
same s = s

inserted :
    (on_pick (codes "Bearer x") (some 7) (some 8) (codes "TOKEN")).text ≡ codes "Bearer ${TOKEN}"
unfolding on_pick insert_reference reference
inserted = refl

abbrev names : List Str
names = codes "TOKEN" ∷ codes "URL" ∷ []

abbrev typed : PickerState
typed = record { is_open = true; query = codes " UR" }

picks : (on_key same names (codes "Enter") typed).picked ≡ some (codes "UR")
unfolding on_key on_enter is_new is_var_name pick shown trim trim_start is_space contains index_of
    index_from starts_with ◌===◌
picks = refl

-- The handler does not ask where the focus is: with an empty query, Enter on any button of the list
-- inserts the first name.
first_name :
    (on_key same names (codes "Enter") (record { is_open = true; query = [] })).picked
    ≡ some (codes "TOKEN")
unfolding on_key on_enter is_new is_var_name pick shown trim trim_start is_space contains index_of
    index_from starts_with ◌===◌
first_name = refl

a_use : use_text (split b'/' (codes "upstream/orders")) ≡ codes "Upstream orders"
unfolding use_text split push_front ◌===◌
a_use = refl

abbrev fresh : PickerState
fresh = record { is_open = true; query = codes "UR " }

-- "UR" is part of a known name, and a new name itself.
ur_pressed : buttons (panel_of same names fresh) ≡ codes "URL" ∷ codes "UR" ∷ []
unfolding is_new is_var_name new_name_of shown trim trim_start is_space contains index_of index_from
    starts_with ◌===◌
ur_pressed = refl

ur_opened : picker_panel same names fresh ≡ some (panel_of same names fresh)
unfolding picker_panel
ur_opened = refl

picker_panel-on_key_example :
    All (IsUsable names) (buttons (panel_of same names fresh))
    × PressesOne same names
        (buttons (panel_of same names fresh))
        (on_key same names (codes "Enter") fresh)
picker_panel-on_key_example =
    picker_panel-on_key same names fresh (panel_of same names fresh) ur_opened
