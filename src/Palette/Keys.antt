-- ===== src/Palette/Keys.antt =====
-- Moving over the entries of the palette and running one.
use restitch_gateway.Prelude.{
  ℕ, zero, suc, ◌+◌, ◌-◌, ◌%◌, ◌<◌, ◌≡◌, refl, ap, ◌∙◌, Bool, true, false, none, some, List, ◌∷◌,
  arith, Str, codes, ◌===◌, ◌==◌, if◌then◌else◌, length, inl, inr, Bool-cases, All,
}
use native.Mathlib.Nat.{add-mod_right, mod_self, mod-eq_of_lt}
use restitch_gateway.Palette.{
  Item, Command, above, score_items, rank_items, flat_items, is_searching,
}
use restitch_gateway.Palette.Best.{rank_items-best}
use restitch_gateway.Palette.State.{
  PaletteState, current, step_index, is_down, is_up, move, choose, on_close, run_action,
  on_key_down, stay, on_query,
}

step_index-lt : (down : Bool) (i n : ℕ) → i < n → step_index down i n < n
unfolding step_index
step_index-lt true i n h = omega arith
step_index-lt false i n h = omega arith

-- The neighbour of entry `i` of `n`, around the ends.
abbrev pub next_index : Bool → ℕ → ℕ → ℕ
next_index true i n = if i + 1 == n then 0 else i + 1
next_index false i n = if i == 0 then n - 1 else i - 1

back : (n j : ℕ) → j ≡ (if suc j == 0 then n - 1 else suc j - 1)
back n j = ground arith

step_index_lem : (down : Bool) (i n : ℕ) → i < n → step_index down i n ≡ next_index down i n
unfolding step_index
step_index_lem true i n h = elim (Bool-cases (i + 1 == n)) [
  | inl e ↦
      let whole : i + 1 ≡ n = ground (arith, e) in
      rw e (add-mod_right (i + 1) n ∙ ap (λ k. k % n) whole ∙ mod_self n)
  | inr e ↦ rw e (add-mod_right (i + 1) n ∙ mod-eq_of_lt (ground (arith, e)))
]
step_index_lem false zero n h = mod-eq_of_lt (omega (arith, h)) ∙ omega arith
step_index_lem false (suc j) n h =
    let less : suc j + n - 1 ≡ j + n = omega arith in
    ap (λ k. k % n) less ∙ add-mod_right j n ∙ mod-eq_of_lt (omega (arith, h)) ∙ back n j

current-lt : (st : PaletteState) (n : ℕ) → 0 < n → current st n < n
unfolding current
current-lt st n h = omega arith

next_index-lt : (down : Bool) (i n : ℕ) → i < n → next_index down i n < n
next_index-lt true i n h = ground arith
next_index-lt false i n h = ground arith

next_index_back : (i n : ℕ) → i < n → next_index false (next_index true i n) n ≡ i
next_index_back i n h = ground arith

current_at : (st : PaletteState) (a n : ℕ) → a < n → current (record st { active = a }) n ≡ a
unfolding current
current_at st a n h = omega arith

current-move :
    (down : Bool) (st : PaletteState) (n : ℕ)
    → 0 < n
    → current (move down st n) n ≡ next_index down (current st n) n
unfolding move
current-move down st n h =
    let now = current st n in
    let stepped = step_index_lem down now n (current-lt st n h) in
    let inside = next_index-lt down now n (current-lt st n h) in
    let some_entry : (n == 0) ≡ false = ground arith in
    rw (some_entry, stepped) (current_at st (next_index down now n) n inside)

-- The keys that go down or up.
abbrev pub IsMove : Bool → Str → Bool → Type 0
IsMove true key ctrl = is_down key ctrl ≡ true
IsMove false key ctrl = (is_down key ctrl ≡ false) × (is_up key ctrl ≡ true)

on_key_down-move :
    (down : Bool) (key : Str) (ctrl : Bool) (flat : List Item) (st : PaletteState)
    → IsMove down key ctrl
    → on_key_down key ctrl flat st ≡ stay (move down st (length flat)) true
unfolding on_key_down
on_key_down-move true key ctrl flat st h = rw h refl
on_key_down-move false key ctrl flat st (h, k) = rw (h, k) refl

-- With an entry to select, an arrow key selects the entry below or above the selected one, around
-- the ends of the list; it does not touch the query, runs nothing, and the input does not get the
-- key.
pub on_key_down_moves :
    (down : Bool) (key : Str) (ctrl : Bool) (flat : List Item) (st : PaletteState)
    → IsMove down key ctrl
    → 0 < length flat
    → (current (on_key_down key ctrl flat st).state (length flat)
        ≡ next_index down (current st (length flat)) (length flat))
      × ((on_key_down key ctrl flat st).state.query ≡ st.query)
      × ((on_key_down key ctrl flat st).ran ≡ none)
      × ((on_key_down key ctrl flat st).prevented ≡ true)
unfolding move
on_key_down_moves down key ctrl flat st h some_entry =
    let e = on_key_down-move down key ctrl flat st h in
    (
      ap (λ o. current o.state (length flat)) e ∙ current-move down st (length flat) some_entry,
      ap (λ o. o.state.query) e ∙ ground arith,
      ap (λ o. o.ran) e,
      ap (λ o. o.prevented) e,
    )

-- Up undoes down.
pub on_key_down_back :
    (key key' : Str) (ctrl ctrl' : Bool) (flat : List Item) (st : PaletteState)
    → IsMove true key ctrl
    → IsMove false key' ctrl'
    → 0 < length flat
    → current (on_key_down key' ctrl' flat (on_key_down key ctrl flat st).state).state (length flat)
      ≡ current st (length flat)
on_key_down_back key key' ctrl ctrl' flat st h k some_entry =
    let n = length flat in
    let mid = (on_key_down key ctrl flat st).state in
    let (first, _, _, _) = on_key_down_moves true key ctrl flat st h some_entry in
    let (second, _, _, _) = on_key_down_moves false key' ctrl' flat mid k some_entry in
    second
    ∙ ap (λ c. next_index false c n) first
    ∙ next_index_back (current st n) n (current-lt st n some_entry)

current-on_query : (text : Str) (st : PaletteState) (n : ℕ) → current (on_query text st) n ≡ 0
unfolding current on_query
current-on_query text st n = omega arith

-- Typing a search that is not blank and that some command matches, and pressing Enter, closes the
-- palette and runs the command of the first entry, and no command that matches the search scores
-- above it.
pub on_query_enter :
    (lower : Str → Str) (items : List Command) (text : Str) (st : PaletteState) (it : Item)
    (more : List Item)
    → is_searching text ≡ true
    → score_items lower text true items ≡ it ∷ more
    → (first : Item) × (on_key_down
          (codes "Enter")
          false
          (flat_items (rank_items lower items text))
          (on_query text st)
        ≡ record {
          state = run_action first.command.run (on_close (on_query text st));
          prevented = true;
          ran = some first.command.run;
        })
      × All (λ x. above x.rank first.rank ≡ false) (score_items lower text true items)
unfolding on_key_down is_down is_up choose ◌===◌
on_query_enter lower items text st it more searching matches =
    let (first, rest, shown, within) = rank_items-best lower items text it more searching matches in
    (
      first,
      rw (current-on_query text st (length (flat_items (rank_items lower items text))), shown) refl,
      within,
    )
