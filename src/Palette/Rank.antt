-- ===== src/Palette/Rank.antt =====
-- What the palette shows for a query.
use restitch_gateway.Prelude.{
  ℕ, zero, suc, ◌≤◌, ◌≡◌, refl, sym, Bool, true, false, List, [], ◌∷◌, map, arith, Str, ◌===◌,
  ===→eq, if◌then◌else◌, inl, inr, Bool-cases, take, length, filter, All, All-append, All-map,
  All-filter, All-kept, All-imp, All-take, All-flat_map, All-filter_imp, All-zip,
}
use restitch_gateway.Palette.{
  Command, above, zero_score, match_score, search_text, Item, Group, is_offered, is_searching,
  add_to_group, group_items, sort, late_item, late_group, cut_group, score_items, rank_items,
  flat_items,
}
use restitch_gateway.Palette.Order.{All-sort}

-- A shown entry matches the query, with the score of its text, and is meant for it.
pub record IsMatch (lower : Str → Str) (query : Str) (it : Item) : Type 0 where
  pub offered : is_offered (is_searching query) it.command.shown ≡ true
  pub scored : it.rank ≡ match_score lower query (search_text it.command)
  pub positive : above it.rank zero_score ≡ true

-- A group holds at most eight entries, all of its name.
pub record IsGroup (g : Group) : Type 0 where
  pub short : length g.items ≤ 8
  pub named : All (λ it. it.command.group ≡ g.name) g.items

module _ {ℓ} (P : Item → Type ℓ) where
  abbrev AllItems : Group → Type ℓ
  AllItems g = All P g.items

  add_to_group-All :
      (gs : List Group) (it : Item) → P it → All AllItems gs → All AllItems (add_to_group gs it)
  unfolding add_to_group
  add_to_group-All [] it h hs = ((h, tt), tt)
  add_to_group-All (g ∷ gs) it h (hg, hs) = elim (Bool-cases (g.name === it.command.group)) [
    | inl e ↦ rw e (All-append P g.items (it ∷ []) hg (h, tt), hs)
    | inr e ↦ rw e (hg, add_to_group-All gs it h hs)
  ]

  group_items-All :
      (items : List Item) (gs : List Group)
      → All P items
      → All AllItems gs
      → All AllItems (group_items gs items)
  unfolding group_items
  group_items-All [] gs hs hg = hg
  group_items-All (it ∷ items) gs (h, hs) hg =
      group_items-All items (add_to_group gs it) hs (add_to_group-All gs it h hg)

  cut_group-All : (searching : Bool) (g : Group) → AllItems g → AllItems (cut_group searching g)
  unfolding cut_group
  cut_group-All true g h = All-take P 8 (sort late_item g.items) (All-sort late_item P g.items h)
  cut_group-All false g h = All-take P 8 g.items h

  rank_items-All :
      (lower : Str → Str) (items : List Command) (query : Str)
      → All P (score_items lower query (is_searching query) items)
      → All P (flat_items (rank_items lower items query))
  unfolding rank_items flat_items
  rank_items-All lower items query h =
      let searching = is_searching query in
      let gs = group_items [] (score_items lower query searching items) in
      All-flat_map P (λ g. g.items) (rank_items lower items query)
        (All-sort (late_group searching) AllItems (map (cut_group searching) gs) (
          All-map AllItems (cut_group searching) gs (
            All-imp AllItems _ (λ g. cut_group-All searching g) gs
              (group_items-All (score_items lower query searching items) [] h tt))))

score_items-IsMatch :
    (lower : Str → Str) (query : Str) (items : List Command)
    → All (IsMatch lower query) (score_items lower query (is_searching query) items)
unfolding score_items
score_items-IsMatch lower query items =
    let scored : Command → Item =
      λ it. record { command = it; rank = match_score lower query (search_text it) } in
    let kept = filter (λ it. is_offered (is_searching query) it.shown) items in
    All-filter_imp
      (λ it.
        (is_offered (is_searching query) it.command.shown ≡ true)
        × (it.rank ≡ match_score lower query (search_text it.command)))
      (IsMatch lower query) (λ it. above it.rank zero_score)
      (λ it (offers, e) over. record { offered = offers; scored = e; positive = over })
      (map scored kept)
      (All-map _ scored kept (
        All-kept _ (λ it. is_offered (is_searching query) it.shown) (λ it offers. (offers, refl))
          items))

score_items-All :
    (P : Command → Type 0) (lower : Str → Str) (query : Str) (searching : Bool)
    (items : List Command)
    → All P items
    → All (λ it. P it.command) (score_items lower query searching items)
unfolding score_items
score_items-All P lower query searching items h =
    All-filter (λ it. P it.command) _ _ (All-map (λ it. P it.command) _ _ (All-filter P _ items h))

-- Every entry that the palette shows matches the query, and is one for searches or for the empty
-- query as its `when` says. Whatever holds of all commands holds of the entries shown.
pub rank_items-IsMatch :
    (P : Command → Type 0) (lower : Str → Str) (items : List Command) (query : Str)
    → All P items
    → All (λ it. IsMatch lower query it × P it.command) (flat_items (rank_items lower items query))
rank_items-IsMatch P lower items query h =
    rank_items-All (λ it. IsMatch lower query it × P it.command) lower items query
      (All-zip (IsMatch lower query) (λ it. P it.command)
        (score_items lower query (is_searching query) items) (score_items-IsMatch lower query items)
        (score_items-All P lower query (is_searching query) items h))

abbrev IsNamed : Group → Type 0
IsNamed g = All (λ it. it.command.group ≡ g.name) g.items

add_to_group-IsNamed :
    (gs : List Group) (it : Item) → All IsNamed gs → All IsNamed (add_to_group gs it)
unfolding add_to_group
add_to_group-IsNamed [] it hs = ((refl, tt), tt)
add_to_group-IsNamed (g ∷ gs) it (hg, hs) = elim (Bool-cases (g.name === it.command.group)) [
  | inl e ↦ rw e (
    All-append (λ x. x.command.group ≡ g.name) g.items (it ∷ []) hg
        (sym (===→eq g.name it.command.group e), tt),
    hs,
  )
  | inr e ↦ rw e (hg, add_to_group-IsNamed gs it hs)
]

group_items-IsNamed :
    (items : List Item) (gs : List Group) → All IsNamed gs → All IsNamed (group_items gs items)
unfolding group_items
group_items-IsNamed [] gs hg = hg
group_items-IsNamed (it ∷ items) gs hg =
    group_items-IsNamed items (add_to_group gs it) (add_to_group-IsNamed gs it hg)

length-take_le {ℓ} : {A : Type ℓ} (n : ℕ) (xs : List A) → length (take n xs) ≤ n
length-take_le zero xs = omega arith
length-take_le (suc n) [] = omega arith
length-take_le (suc n) (x ∷ xs) = omega (arith, length-take_le n xs)

cut_group-IsGroup : (searching : Bool) (g : Group) → IsNamed g → IsGroup (cut_group searching g)
unfolding cut_group
cut_group-IsGroup searching g h = record {
  short = length-take_le 8 (if searching then sort late_item g.items else g.items);
  named = cut_group-All (λ it. it.command.group ≡ g.name) searching g h;
}

-- The palette shows at most eight entries of a group, and each entry under its own group.
pub rank_items-IsGroup :
    (lower : Str → Str) (items : List Command) (query : Str)
    → All IsGroup (rank_items lower items query)
unfolding rank_items
rank_items-IsGroup lower items query =
    let searching = is_searching query in
    let gs = group_items [] (score_items lower query searching items) in
    All-sort (late_group searching) IsGroup (map (cut_group searching) gs) (
      All-map IsGroup (cut_group searching) gs (
        All-imp IsNamed _ (λ g. cut_group-IsGroup searching g) gs
          (group_items-IsNamed (score_items lower query searching items) [] tt)))
