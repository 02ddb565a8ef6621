-- ===== src/Palette.antt =====
-- studio/src/lib/commands.ts and studio/src/app/command-palette.tsx: the command palette. Its entries
-- are in Palette/Items.antt. A score is exact here; the code computes it in floating point.
pub mod Items
pub mod Listbox
pub mod State
pub mod Roles
pub mod Rank
pub mod Best
pub mod Order
pub mod Keys
pub mod Tests
use restitch_gateway.Prelude.{
  ℕ, zero, suc, ◌+◌, ◌-◌, ◌*◌, ◌%◌, min, Bool, true, false, not, ◌&&◌, ◌||◌, Option, none, some,
  List, [], ◌∷◌, ◌++◌, map, Str, codes, ◌===◌, ◌==◌, ltb, leb, if◌then◌else◌, length, get_elem?,
  take, filter, flat_map,
}
use restitch_gateway.Text.{is_space, trim, index_of}

pub data When : Type 0 where
  always idle search : When

-- What `run` does.
pub data Action : Type 0 where
  new_environment : Action
  new_resource : Str → Action
  show_shortcuts : Action
  set_theme : Str → Action
  sign_out : Action
  go : Str → Option Str → Action
  go_resource : Str → Str → Str → Action

pub record Command : Type 0 where
  pub id : Str
  pub label : Str
  pub group : Str
  pub hint : Option Str
  pub keywords : Option Str
  pub shown : When
  pub run : Action

-- `(plus - minus) / 100`, the number that matchScore returns.
pub record Score : Type 0 where
  pub plus : ℕ
  pub minus : ℕ

unfoldable pub above : Score → Score → Bool
above a b = ltb (b.plus + a.minus) (a.plus + b.minus)

abbrev pub zero_score : Score
zero_score = record { plus = 0; minus = 0 }

unfoldable pub is_break : ℕ → Bool
is_break c = is_space c || c == b'/' || c == b'.' || c == b'_' || c == b'-'

unfoldable pub at_word_start : Str → ℕ → Bool
at_word_start t zero = true
at_word_start t (suc at) = elim (get_elem? t at) [ none ↦ false | some c ↦ is_break c ]

abbrev is_high : ℕ → Bool
is_high c = leb 55296 c && leb c 56319

abbrev is_low : ℕ → Bool
is_low c = leb 56320 c && leb c 57343

-- The characters that `for (const ch of q)` goes through: a pair of surrogates is one.
unfoldable pub characters : Str → List Str
characters [] = []
characters (c ∷ []) = (c ∷ []) ∷ []
characters (c ∷ d ∷ s) =
    let rest = characters s in
    let next = characters (d ∷ s) in
    if is_high c && is_low d then (c ∷ d ∷ []) ∷ rest else (c ∷ []) ∷ next

-- The loop over the characters; `none` is the early `return 0`.
unfoldable pub subsequence : Str → List Str → ℕ → ℕ → ℕ → Option ℕ
subsequence t [] score ti run = some score
subsequence t (ch ∷ q) score ti run =
    if ch === codes " " then subsequence t q score ti run else elim (index_of t ch ti) [
      | none ↦ none
      | some found ↦
          let run' = if found == ti then run + 1 else 0 in
          subsequence t q (score + (1 + run' * 2)) (found + 1) run'
    ]

unfoldable pub substring_score : Str → ℕ → Score
substring_score t at = record {
  plus = 100000 + (if at_word_start t at then 50000 else 0);
  minus = 100 * at + length t;
}

abbrev pub subsequence_score : Str → Option ℕ → Score
subsequence_score t none = zero_score
subsequence_score t (some score) = record { plus = 100 * score; minus = length t }

unfoldable pub text_score : Str → Str → Option ℕ → Score
text_score q t none = subsequence_score t (subsequence t (characters q) 0 0 0)
text_score q t (some at) = substring_score t at

unfoldable pub score_of : Str → Str → Score
score_of q t =
    if q === [] then record { plus = 100; minus = 0 } else text_score q t (index_of t q 0)

-- `toLowerCase` is `lower`.
unfoldable pub match_score : (Str → Str) → Str → Str → Score
match_score lower query text = score_of (lower (trim query)) (lower text)

pub record Item : Type 0 where
  pub command : Command
  pub rank : Score

pub record Group : Type 0 where
  pub name : Str
  pub items : List Item

abbrev pub or_empty : Option Str → Str
or_empty none = []
or_empty (some s) = s

unfoldable pub search_text : Command → Str
search_text it = it.label ++ codes " " ++ or_empty it.keywords ++ codes " " ++ or_empty it.hint

unfoldable pub is_offered : Bool → When → Bool
is_offered searching always = true
is_offered searching idle = not searching
is_offered searching search = searching

unfoldable pub add_to_group : List Group → Item → List Group
add_to_group [] it = record { name = it.command.group; items = it ∷ [] } ∷ []
add_to_group (g ∷ gs) it =
    if g.name === it.command.group
    then record g { items = g.items ++ it ∷ [] } ∷ gs
    else g ∷ add_to_group gs it

unfoldable pub group_items : List Group → List Item → List Group
group_items gs [] = gs
group_items gs (it ∷ items) = group_items (add_to_group gs it) items

-- A stable sort. `late a b` says that `a` comes after `b`.
module _ {ℓ} {A : Type ℓ} (late : A → A → Bool) where
  unfoldable pub insert : A → List A → List A
  insert x [] = x ∷ []
  insert x (y ∷ ys) = if late x y then y ∷ insert x ys else x ∷ y ∷ ys

  unfoldable pub sort : List A → List A
  sort [] = []
  sort (x ∷ xs) = insert x (sort xs)

unfoldable pub late_item : Item → Item → Bool
late_item a b = above b.rank a.rank

unfoldable pub best : List Item → Score
best [] = zero_score
best (it ∷ items) = it.rank

abbrev pub group_order : List Str
group_order = codes "Actions" ∷ codes "Go to" ∷ codes "Environments" ∷ codes "Resources" ∷ []

-- `indexOf` plus one; 0 for a text that is missing.
unfoldable pub place_in : List Str → Str → ℕ
place_in [] name = 0
place_in (x ∷ xs) name =
    let rest = place_in xs name in if x === name then 1 else if rest == 0 then 0 else suc rest

unfoldable pub late_group : Bool → Group → Group → Bool
late_group searching a b =
    if searching && (above (best a.items) (best b.items) || above (best b.items) (best a.items))
    then above (best b.items) (best a.items)
    else ltb (place_in group_order b.name) (place_in group_order a.name)

unfoldable pub cut_group : Bool → Group → Group
cut_group searching g = record g {
  items = take 8 (if searching then sort late_item g.items else g.items);
}

unfoldable pub score_items : (Str → Str) → Str → Bool → List Command → List Item
score_items lower query searching items =
    filter (λ it. above it.rank zero_score)
      (map (λ it. record { command = it; rank = match_score lower query (search_text it) })
        (filter (λ it. is_offered searching it.shown) items))

unfoldable pub is_searching : Str → Bool
is_searching query = not (trim query === [])

unfoldable pub rank_items : (Str → Str) → List Command → Str → List Group
rank_items lower items query =
    let searching = is_searching query in
    sort (late_group searching)
      (map (cut_group searching) (group_items [] (score_items lower query searching items)))

unfoldable pub flat_items : List Group → List Item
flat_items groups = flat_map (λ g. g.items) groups
