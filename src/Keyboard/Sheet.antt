-- ===== src/Keyboard/Sheet.antt =====
-- studio/src/app/keyboard.tsx: what ShortcutSheet lists. `upper` is `toUpperCase`, `modifier` the name of
-- the modifier key.
use restitch_gateway.Prelude.{
  Option, none, some, List, [], ◌∷◌, ◌++◌, map, Str, codes, if◌then◌else◌, filter,
}
use restitch_gateway.Access.{can, NavItem, EnvPage, nav_items, settings_items, env_pages}

pub record SheetRow : Type 0 where
  pub label : Str
  pub keys : List Str

pub record Section : Type 0 where
  pub title : Str
  pub rows : List SheetRow

abbrev line : Str → List Str → SheetRow
line label keys = record { label = label; keys = keys }

module _ (upper : Str → Str) (modifier : Str) where
  unfoldable pub chord_line : Str → Option Str → List SheetRow
  chord_line label none = []
  chord_line label (some []) = []
  chord_line label (some (c ∷ chord)) = line label (codes "G" ∷ upper (c ∷ chord) ∷ []) ∷ []

  unfoldable pub nav_lines : Option Str → List NavItem → List SheetRow
  nav_lines role [] = []
  nav_lines role (i ∷ items) =
      (if can role i.min then chord_line i.label i.chord else []) ++ nav_lines role items

  unfoldable pub page_lines : Option Str → List EnvPage → List SheetRow
  page_lines role pages =
      map (λ p. line p.label (codes "G" ∷ upper p.chord ∷ [])) (filter (λ p. can role p.min) pages)

  unfoldable pub shortcut_sheet : Option Str → List Section
  shortcut_sheet role =
      record {
        title = codes "Everywhere";
        rows =
            line (codes "Open the command palette") (modifier ∷ codes "K" ∷ [])
            ∷ line (codes "Show this sheet") (codes "?" ∷ [])
            ∷ [];
      }
      ∷ record {
        title = codes "Lists";
        rows =
            line (codes "Next row") (codes "J" ∷ [])
            ∷ line (codes "Previous row") (codes "K" ∷ [])
            ∷ line (codes "Open the selected row") (codes "↵" ∷ [])
            ∷ line (codes "Clear the selection") (codes "esc" ∷ [])
            ∷ [];
      }
      ∷ record { title = codes "Go to"; rows = nav_lines role (nav_items ++ settings_items) }
      ∷ record { title = codes "In an environment"; rows = page_lines role env_pages }
      ∷ []
