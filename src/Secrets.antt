-- ===== src/Secrets.antt =====
-- studio/src/features/resources/secret-picker.tsx: references to secrets, the picker of their names, and
-- the table of the names that a configuration needs.
pub mod Picks
pub mod Panel
pub mod Tests
use restitch_gateway.Prelude.{
  ℕ, ◌+◌, Bool, true, false, not, ◌&&◌, ◌||◌, Option, none, some, List, [], ◌∷◌, ◌++◌, map, Str,
  codes, ◌===◌, ◌==◌, leb, if◌then◌else◌, length, take, drop, filter, find, includes, every,
}
use restitch_gateway.Text.{trim, contains, split}
use restitch_gateway.Access.{KindInfo, kinds, kind_text}

abbrev is_letter : ℕ → Bool
is_letter c = leb b'A' c && leb c b'Z' || leb b'a' c && leb c b'z' || c == b'_'

abbrev is_digit : ℕ → Bool
is_digit c = leb b'0' c && leb c b'9'

-- VAR_NAME.
unfoldable pub is_var_name : Str → Bool
is_var_name [] = false
is_var_name (c ∷ s) = is_letter c && every (λ d. is_letter d || is_digit d) s

unfoldable pub reference : Str → Str
reference name = b'$' ∷ b'{' ∷ (name ++ b'}' ∷ [])

pub record Inserted : Type 0 where
  pub text : Str
  pub caret : ℕ

unfoldable pub insert_reference : Str → ℕ → ℕ → Str → Inserted
insert_reference text start finish name = record {
  text = take start text ++ (reference name ++ drop finish text);
  caret = start + length (reference name);
}

-- `selectionStart ?? value.length` of an input that may be missing.
abbrev or_end : Str → Option ℕ → ℕ
or_end value none = length value
or_end value (some i) = i

-- StringInput: the text with the reference, and the caret to put after it.
unfoldable pub on_pick : Str → Option ℕ → Option ℕ → Str → Inserted
on_pick value start finish name =
    insert_reference value (or_end value start) (or_end value finish) name

pub record PickerState : Type 0 where
  pub is_open : Bool
  pub query : Str

pub record PickerOutcome : Type 0 where
  pub state : PickerState
  pub picked : Option Str
  pub dismissed : Bool
  pub prevented : Bool

abbrev pub closed : PickerState
closed = record { is_open = false; query = [] }

unfoldable pub pick : Str → Bool → PickerOutcome
pick name prevented = record {
  state = closed;
  picked = some name;
  dismissed = false;
  prevented = prevented;
}

abbrev pub stay : PickerState → Bool → PickerOutcome
stay st prevented = record { state = st; picked = none; dismissed = false; prevented = prevented }

-- `toLowerCase` is `lower`; `names` are those that the environment uses.
module _ (lower : Str → Str) (names : List Str) where
  unfoldable pub shown : PickerState → List Str
  shown st = filter (λ n. contains (lower n) (lower (trim st.query))) names

  unfoldable pub is_new : PickerState → Bool
  is_new st = not (trim st.query === []) && not (includes names (trim st.query))

  abbrev pub pick_first : PickerState → List Str → PickerOutcome
  pick_first st [] = stay st true
  pick_first st (n ∷ ns) = pick n true

  unfoldable pub on_enter : PickerState → PickerOutcome
  on_enter st =
      if not (trim st.query === []) && includes names (trim st.query)
      then pick (trim st.query) true
      else if is_new st && is_var_name (trim st.query)
      then pick (trim st.query) true
      else pick_first st (shown st)

  unfoldable pub on_key : Str → PickerState → PickerOutcome
  on_key key st =
      if key === codes "Escape"
      then record { state = closed; picked = none; dismissed = true; prevented = true }
      else if key === codes "Enter"
      then on_enter st
      else stay st false

unfoldable pub on_button : PickerState → PickerState
on_button st = if st.is_open then closed else record st { is_open = true }

-- A press outside closes and keeps the query.
unfoldable pub on_away : PickerState → PickerState
on_away st = record st { is_open = false }

unfoldable pub on_query : Str → PickerState → PickerState
on_query text st = record st { query = text }

-- One name of the table, with what it is used by.
pub record RequiredName : Type 0 where
  pub name : Str
  pub optional : Bool
  pub used_by : List Str

abbrev or_text : Str → Option KindInfo → Str
or_text kind none = kind
or_text kind (some i) = i.label

unfoldable pub use_text : List Str → Str
use_text [] = []
use_text (kind ∷ []) =
    or_text kind (find (λ i. kind_text i.kind === kind) kinds) ++ codes " undefined"
use_text (kind ∷ name ∷ rest) =
    or_text kind (find (λ i. kind_text i.kind === kind) kinds) ++ (b' ' ∷ name)

pub record NameRow : Type 0 where
  pub name : Str
  pub has_default : Bool
  pub uses : List Str

unfoldable pub name_row : RequiredName → NameRow
name_row n = record {
  name = n.name;
  has_default = n.optional;
  uses = map (λ u. use_text (split b'/' u)) n.used_by;
}

-- `none` is the sentence that no secrets are needed.
unfoldable pub required_names : List RequiredName → Option (List NameRow)
required_names [] = none
required_names (n ∷ ns) = some (map name_row (n ∷ ns))
