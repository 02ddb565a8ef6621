-- ===== src/Palette/Listbox.antt =====
-- studio/src/app/command-palette.tsx: the options that CommandPalette shows, and which one is marked.
use restitch_gateway.Prelude.{
  ℕ, zero, suc, ◌+◌, ◌<◌, ◌≡◌, refl, sym, ap, subst, ◌∙◌, ◌↔◌, Bool, true, false, Option, none,
  some, List, [], ◌∷◌, ◌++◌, map, arith, Str, codes, ◌===◌, ◌==◌, if◌then◌else◌, length, get_elem?,
  filter, flat_map, All,
}
use restitch_gateway.Palette.{Item, Group, flat_items}
use restitch_gateway.Palette.State.{
  PaletteState, current, choose, is_down, is_up, on_key_down, on_click,
}

pub record PaletteOption : Type 0 where
  pub item : Item
  -- The counter `index` of the option, over all groups.
  pub index : ℕ
  pub id : Str
  pub is_selected : Bool

pub record PaletteGroup : Type 0 where
  pub label : Str
  pub options : List PaletteOption

pub record PaletteView : Type 0 where
  pub active_descendant : Option Str
  pub no_results : Bool
  pub groups : List PaletteGroup

abbrev pub option_id : Item → Str
option_id it = codes "palette-" ++ it.command.id

-- The options from counter `i` on.
unfoldable pub option_views : ℕ → ℕ → List Item → List PaletteOption
option_views i selected [] = []
option_views i selected (it ∷ items) =
    record { item = it; index = i; id = option_id it; is_selected = i == selected }
    ∷ option_views (i + 1) selected items

unfoldable pub group_views : ℕ → ℕ → List Group → List PaletteGroup
group_views i selected [] = []
group_views i selected (g ∷ groups) =
    record { label = g.name; options = option_views i selected g.items }
    ∷ group_views (i + length g.items) selected groups

abbrev id_of : Option Item → Option Str
id_of none = none
id_of (some it) = some (option_id it)

abbrev pub shown_view : List Group → PaletteState → PaletteView
shown_view groups st =
    let flat = flat_items groups in
    let selected = current st (length flat) in
    record {
      active_descendant = id_of (get_elem? flat selected);
      no_results = length flat == 0;
      groups = group_views 0 selected groups;
    }

-- The content is there while it is rendered.
unfoldable pub palette_view : List Group → PaletteState → Option PaletteView
palette_view groups st = if st.rendered then some (shown_view groups st) else none

abbrev pub options_of : PaletteView → List PaletteOption
options_of v = flat_map (λ g. g.options) v.groups

abbrev pub to_list {ℓ} : {A : Type ℓ} → Option A → List A
to_list none = []
to_list (some a) = a ∷ []

option_views-append :
    (i c : ℕ) (xs ys : List Item)
    → option_views i c (xs ++ ys) ≡ option_views i c xs ++ option_views (i + length xs) c ys
unfolding option_views
option_views-append i c [] ys = ap (λ k. option_views k c ys) (omega arith)
option_views-append i c (x ∷ xs) ys =
    let shift : i + 1 + length xs ≡ i + suc (length xs) = omega arith in
    ap (λ l. record { item = x; index = i; id = option_id x; is_selected = i == c } ∷ l)
      (option_views-append (i + 1) c xs ys
        ∙ ap (λ k. option_views (i + 1) c xs ++ option_views k c ys) shift)

-- The options of the groups are those of all entries.
group_views-flat :
    (i c : ℕ) (groups : List Group)
    → flat_map (λ g. g.options) (group_views i c groups) ≡ option_views i c (flat_items groups)
unfolding group_views flat_items option_views
group_views-flat i c [] = refl
group_views-flat i c (g ∷ groups) =
    ap (λ l. option_views i c g.items ++ l) (group_views-flat (i + length g.items) c groups)
    ∙ sym (option_views-append i c g.items (flat_items groups))

option_views-item :
    (i c : ℕ) (items : List Item) → map (λ o. o.item) (option_views i c items) ≡ items
unfolding option_views
option_views-item i c [] = refl
option_views-item i c (it ∷ items) = ap (λ l. it ∷ l) (option_views-item (i + 1) c items)

-- Behind the selected entry, no option is marked.
none_marked :
    (i c : ℕ) (items : List Item)
    → c < i
    → filter (λ o. o.is_selected) (option_views i c items) ≡ []
unfolding option_views
none_marked i c [] h = refl
none_marked i c (it ∷ items) h =
    let other : (i == c) ≡ false = ground (arith, h) in
    rw other (none_marked (i + 1) c items (omega (arith, h)))

-- The option of a counter `k` further on is the marked one, whatever is read off the options.
marked {ℓ} :
    {A : Type ℓ} (f : PaletteOption → A) (read : Item → A)
    (agrees : (it : Item) (i : ℕ) (s : Bool)
      → f (record { item = it; index = i; id = option_id it; is_selected = s }) ≡ read it)
    (i c k : ℕ) (items : List Item)
    → c ≡ i + k
    → map f (filter (λ o. o.is_selected) (option_views i c items))
      ≡ map read (to_list (get_elem? items k))
unfolding option_views
marked f read agrees i c k [] h = refl
marked f read agrees i c zero (it ∷ items) h =
    let this : (i == c) ≡ true = ground (arith, h) in
    rw (this, none_marked (i + 1) c items (omega (arith, h))) (ap (λ a. a ∷ []) (agrees it i true))
marked f read agrees i c (suc k) (it ∷ items) h =
    let other : (i == c) ≡ false = ground (arith, h) in
    rw other (marked f read agrees (i + 1) c k items (omega (arith, h)))

indexed :
    (full : List Item) (i c : ℕ) (items : List Item)
    → ((j : ℕ) → get_elem? full (i + j) ≡ get_elem? items j)
    → All (λ o. get_elem? full o.index ≡ some o.item) (option_views i c items)
unfolding option_views
indexed full i c [] h = tt
indexed full i c (it ∷ items) h = (
  ap (get_elem? full) (omega arith) ∙ h 0,
  indexed full (i + 1) c items (λ j. ap (get_elem? full) (omega arith) ∙ h (suc j)),
)

clicked :
    (st : PaletteState) (flat : List Item) (os : List PaletteOption)
    → All (λ o. get_elem? flat o.index ≡ some o.item) os
    → All (λ o. (on_click o.index flat st).ran ≡ some o.item.command.run) os
unfolding on_click choose
clicked st flat [] h = tt
clicked st flat (o ∷ os) (h, hs) = (rw h refl, clicked st flat os hs)

chosen :
    (st : PaletteState) (o : Option Item)
    → map (λ it. it.command.run) (to_list o) ≡ to_list (choose st true o).ran
unfolding choose
chosen st none = refl
chosen st (some it) = refl

pub described : (o : Option Item) → map option_id (to_list o) ≡ to_list (id_of o)
described none = refl
described (some it) = refl

empty_iff :
    (c : ℕ) (items : List Item) → ((length items == 0) ≡ true) ↔ (option_views 0 c items ≡ [])
unfolding option_views
empty_iff c [] = (λ _. refl, λ _. refl)
empty_iff c (it ∷ items) = (λ h. absurd (ground (arith, h)), λ h. absurd (cc h))

-- What the shown palette says about the entries `groups`.
pub record IsListbox (groups : List Group) (st : PaletteState) (v : PaletteView) : Type 0 where
  pub all_shown : map (λ o. o.item) (options_of v) ≡ flat_items groups
  pub enter_runs :
      map (λ o. o.item.command.run) (filter (λ o. o.is_selected) (options_of v))
      ≡ to_list (on_key_down (codes "Enter") false (flat_items groups) st).ran
  pub announced :
      map (λ o. o.id) (filter (λ o. o.is_selected) (options_of v)) ≡ to_list v.active_descendant
  pub click_runs :
      All
        (λ o. (on_click o.index (flat_items groups) st).ran ≡ some o.item.command.run)
        (options_of v)
  pub says_so : (v.no_results ≡ true) ↔ (options_of v ≡ [])

listbox : (groups : List Group) (st : PaletteState) → IsListbox groups st (shown_view groups st)
unfolding on_key_down is_down is_up ◌===◌
listbox groups st =
    let flat = flat_items groups in
    let c = current st (length flat) in
    let all = group_views-flat 0 c groups in
    record {
      all_shown = rw all (option_views-item 0 c flat);
      enter_runs =
          rw all (
            marked (λ o. o.item.command.run) (λ it. it.command.run) (λ it i s. refl) 0 c c flat
              (omega arith))
          ∙ chosen st (get_elem? flat c);
      announced =
          rw all (marked (λ o. o.id) option_id (λ it i s. refl) 0 c c flat (omega arith))
          ∙ described (get_elem? flat c);
      click_runs =
          rw all
            (clicked st flat _ (indexed flat 0 c flat (λ j. ap (get_elem? flat) (omega arith))));
      says_so = rw all (empty_iff c flat);
    }

if_some : (b : Bool) (x v : PaletteView) → (if b then some x else none) ≡ some v → x ≡ v
if_some true x v h = cc h
if_some false x v h = absurd (cc h)

-- While its content is rendered, the palette shows an option for each entry in order. The marked
-- options are no more than one: the entry that Enter runs, which the input announces; without entries
-- none is marked, nothing is announced, Enter runs nothing, and the palette says that there are no
-- results. A click on an option runs the entry that it shows.
pub palette_view-IsListbox :
    (groups : List Group) (st : PaletteState) (v : PaletteView)
    → palette_view groups st ≡ some v
    → IsListbox groups st v
unfolding palette_view
palette_view-IsListbox groups st v h =
    subst (IsListbox groups st) (if_some st.rendered (shown_view groups st) v h) (listbox groups st)
