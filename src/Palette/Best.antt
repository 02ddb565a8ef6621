-- ===== src/Palette/Best.antt =====
-- The first entry that the palette shows for a search.
use restitch_gateway.Prelude.{
  ◌+◌, ◌≡◌, refl, sym, ◌∙◌, ap, subst, Bool, true, false, List, [], ◌∷◌, ◌++◌, map, arith, Str,
  ◌===◌, inl, inr, Bool-cases, List-cases, take, flat_map, All, All-append_back, All-map_back,
  All-zip, All-imp, All-map,
}
use restitch_gateway.Palette.{
  Command, Score, above, Item, Group, add_to_group, group_items, sort, best, late_item, late_group,
  cut_group, score_items, rank_items, flat_items, is_searching,
}
use restitch_gateway.Palette.Order.{IsOrder, All-sort, All-sort_back, sort-Leads, sort_first, Leads}

above_asym : (a b : Score) → above a b ≡ true → above b a ≡ false
unfolding above
above_asym a b h = ground arith

above_trans : (a b c : Score) → above b a ≡ false → above c b ≡ false → above c a ≡ false
unfolding above
above_trans a b c h k = ground arith

above_self : (a : Score) → above a a ≡ false
unfolding above
above_self a = ground arith

late_item-IsOrder : IsOrder late_item
unfolding late_item
late_item-IsOrder = record {
  asym = λ a b. above_asym b.rank a.rank;
  trans = λ a b c. above_trans a.rank b.rank c.rank;
}

late_group-IsOrder : (searching : Bool) → IsOrder (late_group searching)
unfolding late_group above
late_group-IsOrder true = record { asym = λ a b h. ground arith; trans = λ a b c h k. ground arith }
late_group-IsOrder false = record {
  asym = λ a b h. ground arith;
  trans = λ a b c h k. ground arith;
}

late_group-best :
    (a b : Group) → late_group true a b ≡ false → above (best b.items) (best a.items) ≡ false
unfolding late_group
late_group-best a b h = ground arith

-- No item ranks above the score.
abbrev Within : Score → Item → Type 0
Within b it = above it.rank b ≡ false

abbrev AllWithin : Score → Group → Type 0
AllWithin b g = All (Within b) g.items

add_to_group_back :
    (b : Score) (gs : List Group) (it : Item)
    → All (AllWithin b) (add_to_group gs it)
    → All (AllWithin b) gs × Within b it
unfolding add_to_group
add_to_group_back b [] it ((h, _), _) = (tt, h)
add_to_group_back b (g ∷ gs) it hs = elim (Bool-cases (g.name === it.command.group)) [
  | inl e ↦
      let (hg, rest) : All (Within b) (g.items ++ it ∷ []) × All (AllWithin b) gs = rw e at hs in
      let (old, (new, _)) = All-append_back (Within b) g.items (it ∷ []) hg in ((old, rest), new)
  | inr e ↦
      let (hg, rest) : AllWithin b g × All (AllWithin b) (add_to_group gs it) = rw e at hs in
      let (old, new) = add_to_group_back b gs it rest in ((hg, old), new)
]

group_items_back :
    (b : Score) (items : List Item) (gs : List Group)
    → All (AllWithin b) (group_items gs items)
    → All (AllWithin b) gs × All (Within b) items
unfolding group_items
group_items_back b [] gs h = (h, tt)
group_items_back b (it ∷ items) gs h =
    let (mid, rest) = group_items_back b items (add_to_group gs it) h in
    let (old, new) = add_to_group_back b gs it mid in (old, (new, rest))

abbrev IsFull : Group → Type 0
IsFull g = (x : Item) × (xs : List Item) × (g.items ≡ x ∷ xs)

add_to_group-IsFull :
    (gs : List Group) (it : Item) → All IsFull gs → All IsFull (add_to_group gs it)
unfolding add_to_group
add_to_group-IsFull [] it hs = ((it, [], refl), tt)
add_to_group-IsFull (g ∷ gs) it ((x, xs, full), hs) =
    elim (Bool-cases (g.name === it.command.group)) [
      | inl e ↦ rw e ((x, xs ++ it ∷ [], ap (λ l. l ++ it ∷ []) full), hs)
      | inr e ↦ rw e ((x, xs, full), add_to_group-IsFull gs it hs)
    ]

group_items-IsFull :
    (items : List Item) (gs : List Group) → All IsFull gs → All IsFull (group_items gs items)
unfolding group_items
group_items-IsFull [] gs h = h
group_items-IsFull (it ∷ items) gs h =
    group_items-IsFull items (add_to_group gs it) (add_to_group-IsFull gs it h)

sorted-Within :
    (items : List Item) (h : Item) (t : List Item)
    → sort late_item items ≡ h ∷ t
    → All (Within h.rank) items
unfolding late_item
sorted-Within items h t sorted =
    let leads : Leads late_item late_item-IsOrder (h ∷ t) =
      subst (Leads late_item late_item-IsOrder) sorted
        (sort-Leads late_item late_item-IsOrder items) in
    All-sort_back late_item (Within h.rank) items
      (subst (All (Within h.rank)) (sym sorted) (above_self h.rank, leads))

-- After the cut of a search, the first item of a group ranks as high as any item before the cut.
cut_group-best :
    (g : Group) → IsFull g → IsFull (cut_group true g) × AllWithin (best (cut_group true g).items) g
unfolding cut_group best
cut_group-best g (x, xs, full) =
    let (h, t, sorted) = sort_first late_item late_item-IsOrder x xs in
    let sorted' : sort late_item g.items ≡ h ∷ t = rw full sorted in
    (
      (h, take 7 t, ap (take 8) sorted'),
      subst (λ b. AllWithin b g) (sym (ap (λ l. best (take 8 l)) sorted'))
          (sorted-Within g.items h t sorted'),
    )

-- The first item shown, and that no scored item ranks above it.
abbrev pub Enter : List Item → List Item → Type 0
Enter scored shown =
    (first : Item) × (rest : List Item) × (shown ≡ first ∷ rest) × All (Within first.rank) scored

groups-Enter :
    (gs : List Group) (g : Group) (more : List Group)
    → gs ≡ g ∷ more
    → All IsFull gs
    → (first : Item) × (rest : List Item) × (flat_items
          (sort (late_group true) (map (cut_group true) gs))
        ≡ first ∷ rest)
      × All (AllWithin first.rank) gs
unfolding flat_items best
groups-Enter gs g more e full =
    let cut = cut_group true in
    let late = late_group true in
    let order = late_group-IsOrder true in
    let facts : All (λ g. IsFull (cut g) × AllWithin (best (cut g).items) g) gs =
      All-imp IsFull _ cut_group-best gs full in
    let (h, t, sorted) = sort_first late order (cut g) (map cut more) in
    let sorted' : sort late (map cut gs) ≡ h ∷ t = rw e sorted in
    let leads : Leads late order (h ∷ t) =
      subst (Leads late order) sorted' (sort-Leads late order (map cut gs)) in
    let best_h : All (λ g. above (best g.items) (best h.items) ≡ false) (h ∷ t) =
      (above_self (best h.items), All-imp _ _ (λ y. late_group-best h y) t leads) in
    let below : All (λ g. above (best (cut g).items) (best h.items) ≡ false) gs =
      All-map_back _ cut gs
        (All-sort_back late _ (map cut gs) (subst (All _) (sym sorted') best_h)) in
    let fulls : All IsFull (h ∷ t) = subst (All IsFull) sorted' (
      All-sort late IsFull (map cut gs)
        (All-map IsFull cut gs (All-imp _ _ (λ g (f, w). f) gs facts))) in
    let ((x, xs, first_h), _) : IsFull h × All IsFull t = fulls in
    (
      x,
      xs ++ flat_map (λ g. g.items) t,
      ap (flat_map (λ g. g.items)) sorted' ∙ ap (λ l. l ++ flat_map (λ g. g.items) t) first_h,
      All-imp _ (AllWithin x.rank)
          (λ g (b, (f, w)).
            All-imp (Within (best (cut g).items)) (Within x.rank)
              (λ it.
                above_trans x.rank (best (cut g).items) it.rank
                  (subst (λ l. above (best (cut g).items) (best l) ≡ false) first_h b))
              g.items w)
          gs (All-zip _ _ gs below facts),
    )

-- A lower score than the given one.
abbrev under : Score → Score
under a = record { plus = 0; minus = a.minus + 1 }

above-under : (a : Score) → above a (under a) ≡ true
unfolding above
above-under a = ground arith

group_items_some :
    (scored : List Item) (it : Item) (more : List Item)
    → scored ≡ it ∷ more
    → (g : Group) × (gs : List Group) × (group_items [] scored ≡ g ∷ gs)
group_items_some scored it more e = elim (List-cases (group_items [] scored)) [
  | inl none_at_all ↦
      let (_, within) =
        group_items_back (under it.rank) scored []
          (subst (All (AllWithin (under it.rank))) (sym none_at_all) tt) in
      let (w, _) : All (Within (under it.rank)) (it ∷ more) =
        subst (All (Within (under it.rank))) e within in
      absurd (cc (above-under it.rank, w))
  | inr one ↦ one
]

-- When the query is not blank and some command for searches matches it, the palette shows a first
-- entry, and no command that matches scores above it.
pub rank_items-best :
    (lower : Str → Str) (items : List Command) (query : Str) (it : Item) (more : List Item)
    → is_searching query ≡ true
    → score_items lower query true items ≡ it ∷ more
    → Enter (score_items lower query true items) (flat_items (rank_items lower items query))
unfolding rank_items
rank_items-best lower items query it more searching some_match =
    let scored = score_items lower query true items in
    let gs = group_items [] scored in
    let (g, rest, e) = group_items_some scored it more some_match in
    let (first, others, shown, within) =
      groups-Enter gs g rest e (group_items-IsFull scored [] tt) in
    let (_, w) = group_items_back first.rank scored [] within in
    (first, others, rw searching shown, w)
