-- ===== src/Palette/Tests.antt =====
-- Runs of the palette: an owner at the environment prod, with two environments and one resource.
use restitch_gateway.Prelude.{
  map, ◌≡◌, refl, true, false, Option, none, some, List, [], ◌∷◌, Str, codes, ◌===◌, All,
}
use restitch_gateway.Text.{trim, trim_start, is_space, index_of, index_from, starts_with}
use restitch_gateway.Access.{composition}
use restitch_gateway.Palette.{
  new_environment, go, Command, above, is_break, at_word_start, characters, subsequence,
  substring_score, text_score, score_of, match_score, Item, Group, search_text, is_offered,
  score_items, is_searching, rank_items, flat_items,
}
use restitch_gateway.Palette.Items.{Resource, palette_items, plain}
use restitch_gateway.Palette.Listbox.{
  option_views, group_views, options_of, shown_view, palette_view, IsListbox,
  palette_view-IsListbox,
}
use restitch_gateway.Palette.State.{current, PaletteState, is_down, is_up}
use restitch_gateway.Palette.Roles.{Permitted, palette_items-Permitted}
use restitch_gateway.Palette.Best.{Enter, rank_items-best}

abbrev same : Str → Str
same s = s

abbrev owner_text : Option Str
owner_text = some (codes "owner")

abbrev names : List Str
names = codes "dev" ∷ codes "prod" ∷ []

abbrev found : List (List Resource)
found = [] ∷ (record { kind = composition; name = codes "orders" } ∷ []) ∷ []

abbrev commands : List Command
commands =
    plain (codes "a") (codes "Actions") (codes "sign out") new_environment
    ∷ plain (codes "b") (codes "Environments") (codes "prod")
        (go (codes "/environments/$env") (some (codes "prod")))
    ∷ []

abbrev item : Item
item = record {
  command =
      plain (codes "b") (codes "Environments") (codes "prod")
        (go (codes "/environments/$env") (some (codes "prod")));
  rank = record { plus = 150000; minus = 6 };
}

abbrev start : PaletteState
start = record {
  is_open = true;
  dialog_open = true;
  query = [];
  active = 0;
  rendered = true;
  creating_env = false;
  resource_env = none;
}

palette_items-Permitted_example :
    All (Permitted owner_text) (palette_items same owner_text (some (codes "prod")) names found)
palette_items-Permitted_example =
    palette_items-Permitted same owner_text (some (codes "prod")) names found

matches : score_items same (codes "pr") true commands ≡ item ∷ []
unfolding score_items is_offered match_score search_text score_of text_score substring_score
    subsequence characters at_word_start is_break above trim trim_start is_space index_of index_from
    starts_with ◌===◌
matches = refl

searches : is_searching (codes "pr") ≡ true
unfolding is_searching trim trim_start is_space ◌===◌
searches = refl

rank_items-best_example :
    Enter
      (score_items same (codes "pr") true commands)
      (flat_items (rank_items same commands (codes "pr")))
rank_items-best_example = rank_items-best same commands (codes "pr") item [] searches matches

abbrev two : List Item
two = item ∷ item ∷ []

down_key : is_down (codes "n") true ≡ true
unfolding is_down ◌===◌
down_key = refl

up_key : (is_down (codes "ArrowUp") false ≡ false) × (is_up (codes "ArrowUp") false ≡ true)
unfolding is_down is_up ◌===◌
up_key = (refl, refl)

abbrev two_groups : List Group
two_groups =
    record { name = codes "Pages"; items = item ∷ [] }
    ∷ record { name = codes "Environments"; items = item ∷ item ∷ [] }
    ∷ []

abbrev on_third : PaletteState
on_third = record start { active = 7 }

shows : palette_view two_groups on_third ≡ some (shown_view two_groups on_third)
unfolding palette_view
shows = refl

-- The third option, over both groups, is marked when `active` is beyond the end.
third_marked :
    map (λ o. o.is_selected) (options_of (shown_view two_groups on_third))
    ≡ false ∷ false ∷ true ∷ []
unfolding group_views option_views flat_items current
third_marked = refl

palette_view-IsListbox_example : IsListbox two_groups on_third (shown_view two_groups on_third)
palette_view-IsListbox_example =
    palette_view-IsListbox two_groups on_third (shown_view two_groups on_third) shows
