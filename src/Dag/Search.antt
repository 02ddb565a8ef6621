-- ===== src/Dag/Search.antt =====
-- The search of dependsOnTransitively: its end and its answer.
use mathlib.Core.HLevel.{⊥_prop}
use mathlib.Core.Logic.{∥∥₁_elim}
use mathlib.Core.List.{reverse, reverse-cons}
use restitch_gateway.Prelude.{
  every, ap, Option, ℕ, zero, suc, ◌+◌, ◌≤◌, ◌≡◌, refl, ◌↔◌, ◌⊎◌, inl, inr, Bool, true, false, some,
  List, [], ◌∷◌, ◌++◌, arith, Str, ◌===◌, ===_refl, ===_iff, if◌then◌else◌, Bool-cases, length,
  length-append, includes, includes-append, set_add, includes-set_add,
}
use restitch_gateway.Dag.{
  DagStep, StrMap, map_get, depends_on_map, search_loop, search_fuel, depends_on_transitively,
}
use restitch_gateway.Dag.Relation.{Needs, Reach, here, next, IsAcyclic}

includes-reverse : (xs : List Str) (a : Str) → includes (reverse xs) a ≡ includes xs a
includes-reverse [] a = refl
includes-reverse (x ∷ xs) a =
    rw (reverse-cons x xs)
      (ground (arith, includes-append (reverse xs) (x ∷ []) a, includes-reverse xs a))

length-reverse : (xs : List Str) → length (reverse xs) ≡ length xs
length-reverse [] = refl
length-reverse (x ∷ xs) =
    rw (reverse-cons x xs) (omega (arith, length-append (reverse xs) (x ∷ []), length-reverse xs))

-- What may still be pushed: the lists of the keys that were not seen.
abbrev budget : StrMap → List Str → ℕ
budget [] seen = 0
budget ((k, v) ∷ m) seen = (if includes seen k then 0 else length v) + budget m seen

budget-set_add_le :
    (m : StrMap) (seen : List Str) (cur : Str) → budget m (set_add seen cur) ≤ budget m seen
budget-set_add_le [] seen cur = omega arith
budget-set_add_le ((k, v) ∷ m) seen cur =
    ground (arith, includes-set_add seen cur k, budget-set_add_le m seen cur)

budget-expand :
    (m : StrMap) (seen : List Str) (cur : Str)
    → includes seen cur ≡ false
    → length (map_get m cur) + budget m (set_add seen cur) ≤ budget m seen
unfolding map_get
budget-expand [] seen cur h = omega arith
budget-expand ((k, v) ∷ m) seen cur h = ground (
  arith,
  includes-set_add seen cur k,
  budget-set_add_le m seen cur,
  ===_iff k cur,
  ===_iff cur k,
  budget-expand m seen cur,
)

search_loop_total :
    (fuel : ℕ) (deps : StrMap) (target : Str) (seen stack : List Str)
    → length stack + budget deps seen ≤ fuel
    → (b : Bool) × (search_loop fuel deps target seen stack ≡ some b)
unfolding search_loop
search_loop_total zero deps target seen [] h = (false, refl)
search_loop_total (suc fuel) deps target seen [] h = (false, refl)
search_loop_total zero deps target seen (cur ∷ stack) h = absurd (omega arith)
search_loop_total (suc fuel) deps target seen (cur ∷ stack) h = elim (Bool-cases (cur === target)) [
  | inl found ↦ (true, rw found)
  | inr other ↦ elim (Bool-cases (includes seen cur)) [
    | inl old ↦ rw (other, old) (search_loop_total fuel deps target seen stack (omega arith))
    | inr new ↦
        rw (other, new)
          (search_loop_total fuel deps target (set_add seen cur) _ (
            omega (
              arith,
              budget-expand deps seen cur new,
              length-append (reverse (map_get deps cur)) stack,
              length-reverse (map_get deps cur),
            )))
  ]
]

module _ (deps : StrMap) (start target : Str) where
  search_loop_sound :
      (fuel : ℕ) (seen stack : List Str)
      → ((x : Str) → includes stack x ≡ true → Reach deps start x)
      → search_loop fuel deps target seen stack ≡ some true
      → Reach deps start target
  unfolding search_loop
  search_loop_sound zero seen [] walks e = cc
  search_loop_sound (suc fuel) seen [] walks e = cc
  search_loop_sound zero seen (cur ∷ stack) walks e = cc
  search_loop_sound (suc fuel) seen (cur ∷ stack) walks e = elim (Bool-cases (cur === target)) [
    | inl found ↦ walks target (rw found)
    | inr other ↦ elim (Bool-cases (includes seen cur)) [
      | inl old ↦
          search_loop_sound fuel seen stack (λ x m. walks x (rest x m)) (rw (other, old) at e)
      | inr new ↦
          search_loop_sound fuel (set_add seen cur) _
            (λ x m. elim (pushed x m) [
              | inl dep ↦ next (walks cur (ground (arith, ===_refl cur))) dep
              | inr waits ↦ walks x (rest x waits)
            ])
            (rw (other, new) at e)
    ]
  ]
    where
      rest : (x : Str) → includes stack x ≡ true → includes (cur ∷ stack) x ≡ true
      rest x m = ground arith

      pushed :
          (x : Str)
          → includes (reverse (map_get deps cur) ++ stack) x ≡ true
          → Needs deps cur x ⊎ (includes stack x ≡ true)
      pushed x m = ground (
        arith,
        includes-append (reverse (map_get deps cur)) stack x,
        includes-reverse (map_get deps cur) x,
      )

  record Inv (seen stack : List Str) : Type 0 where
    source : (includes seen start ≡ true) ⊎ (includes stack start ≡ true)
    missed : includes seen target ≡ false
    closed :
        (a b : Str)
        → includes seen a ≡ true
        → Needs deps a b
        → (includes seen b ≡ true) ⊎ (includes stack b ≡ true)

  -- Nothing is left to visit, so all that can be reached was seen.
  Inv-done :
      (seen : List Str) → Inv seen [] → {x : Str} → Reach deps start x → includes seen x ≡ true
  Inv-done seen inv here = ground (arith, inv.source)
  Inv-done seen inv (next {b} {c} p e) = ground (arith, inv.closed b c (Inv-done seen inv p) e)

  Inv-skip :
      (seen stack : List Str) (cur : Str)
      → includes seen cur ≡ true
      → Inv seen (cur ∷ stack)
      → Inv seen stack
  Inv-skip seen stack cur old inv = record {
    source = ground (arith, inv.source, ===_iff cur start);
    missed = inv.missed;
    closed = λ a b m e. ground (arith, inv.closed a b m e, ===_iff cur b);
  }

  Inv-expand :
      (seen stack : List Str) (cur : Str)
      → cur === target ≡ false
      → Inv seen (cur ∷ stack)
      → Inv (set_add seen cur) (reverse (map_get deps cur) ++ stack)
  Inv-expand seen stack cur other inv = record {
    source = ground (
      arith,
      inv.source,
      includes-set_add seen cur start,
      includes-append (reverse (map_get deps cur)) stack start,
    );
    missed = ground (arith, inv.missed, includes-set_add seen cur target);
    closed = λ a b m e. ground (
      arith,
      includes-set_add seen cur a,
      includes-set_add seen cur b,
      includes-append (reverse (map_get deps cur)) stack b,
      includes-reverse (map_get deps cur) b,
      ===_iff cur a,
      inv.closed a b,
    );
  }

  search_loop_complete :
      (fuel : ℕ) (seen stack : List Str)
      → Inv seen stack
      → search_loop fuel deps target seen stack ≡ some false
      → ¬ Reach deps start target
  unfolding search_loop
  search_loop_complete zero seen [] inv e p = cc (Inv-done seen inv p, inv.missed)
  search_loop_complete (suc fuel) seen [] inv e p = cc (Inv-done seen inv p, inv.missed)
  search_loop_complete zero seen (cur ∷ stack) inv e p = cc
  search_loop_complete (suc fuel) seen (cur ∷ stack) inv e p = elim (Bool-cases (cur === target)) [
    | inl found ↦ cc (rw found at e)
    | inr other ↦ elim (Bool-cases (includes seen cur)) [
      | inl old ↦
          search_loop_complete fuel seen stack (Inv-skip seen stack cur old inv)
            (rw (other, old) at e) p
      | inr new ↦
          search_loop_complete fuel (set_add seen cur) _ (Inv-expand seen stack cur other inv)
            (rw (other, new) at e) p
    ]
  ]

budget-start_le : (deps : StrMap) → 1 + budget deps [] ≤ search_fuel deps
unfolding search_fuel
budget-start_le [] = omega arith
budget-start_le ((k, v) ∷ m) = omega (arith, budget-start_le m)

-- The search ends for every list of steps, with repeated names and cycles too.
pub depends_on_transitively_total :
    (steps : List DagStep) (step target : Str)
    → (b : Bool) × (depends_on_transitively steps step target ≡ some b)
unfolding depends_on_transitively
depends_on_transitively_total steps step target =
    let deps = depends_on_map steps in
    search_loop_total (search_fuel deps) deps target [] (step ∷ []) (budget-start_le deps)

pub depends_on_transitively_sound :
    (steps : List DagStep) (step target : Str)
    → depends_on_transitively steps step target ≡ some true
    → Reach (depends_on_map steps) step target
unfolding depends_on_transitively
depends_on_transitively_sound steps step target =
    search_loop_sound (depends_on_map steps) step target (search_fuel (depends_on_map steps)) []
      (step ∷ []) (λ x m. start x m)
  where
    start : (x : Str) → includes (step ∷ []) x ≡ true → Reach (depends_on_map steps) step x
    start x m = let same : step ≡ x = ground (arith, ===_iff step x) in rw same here

pub depends_on_transitively_complete :
    (steps : List DagStep) (step target : Str)
    → depends_on_transitively steps step target ≡ some false
    → ¬ Reach (depends_on_map steps) step target
unfolding depends_on_transitively
depends_on_transitively_complete steps step target =
    search_loop_complete (depends_on_map steps) step target (search_fuel (depends_on_map steps)) []
      (step ∷ [])
      (record {
        source = inr (ground (arith, ===_refl step));
        missed = refl;
        closed = λ a b m e. cc;
      })

-- For every list of steps the search returns, and it returns true exactly when a chain of
-- dependencies leads from the step to the target.
pub depends_on_transitively_decides :
    (steps : List DagStep) (step target : Str)
    → (b : Bool) × (depends_on_transitively steps step target ≡ some b)
      × ((b ≡ true) ↔ ∥ Reach (depends_on_map steps) step target ∥₁)
depends_on_transitively_decides steps step target =
    let (b, e) = depends_on_transitively_total steps step target in (b, e, answer b e)
  where
    answer :
        (b : Bool)
        → depends_on_transitively steps step target ≡ some b
        → (b ≡ true) ↔ ∥ Reach (depends_on_map steps) step target ∥₁
    answer true e = (λ _. ∣ depends_on_transitively_sound steps step target e ∣₁, λ _. refl)
    answer false e = (
      λ h. cc,
      λ w. absurd (∥∥₁_elim w ⊥_prop (depends_on_transitively_complete steps step target e)),
    )

abbrev is_no : Option Bool → Bool
is_no (some false) = true
is_no _ = false

-- A graph is free of cycles if the search finds no way back along any of its edges.
abbrev pub no_way_back : List DagStep → StrMap → Bool
no_way_back steps deps =
    every (λ e. every (λ b. is_no (depends_on_transitively steps b e.0)) e.1) deps

every-includes :
    (p : Str → Bool) (xs : List Str) (a : Str)
    → every p xs ≡ true
    → includes xs a ≡ true
    → p a ≡ true
every-includes p [] a h m = cc
every-includes p (x ∷ xs) a h m = elim (Bool-cases (x === a)) [
  | inl same ↦ let e : x ≡ a = (===_iff x a).0 same in ground (arith, ap p e)
  | inr other ↦ ground (arith, every-includes p xs a)
]

no_way_back-Needs :
    (steps : List DagStep) (deps : StrMap) (a b : Str)
    → no_way_back steps deps ≡ true
    → Needs deps a b
    → depends_on_transitively steps b a ≡ some false
unfolding map_get
no_way_back-Needs steps [] a b h e = cc
no_way_back-Needs steps ((k, v) ∷ deps) a b h e = elim (Bool-cases (k === a)) [
  | inl same ↦
      let key : k ≡ a = (===_iff k a).0 same in
      let way =
        every-includes (λ c. is_no (depends_on_transitively steps c k)) v b (ground arith)
          (rw same at e) in
      ground (arith, ap (λ c. depends_on_transitively steps b c) key)
  | inr other ↦ no_way_back-Needs steps deps a b (ground arith) (rw other at e)
]

pub IsAcyclic-by_search :
    (steps : List DagStep)
    → no_way_back steps (depends_on_map steps) ≡ true
    → IsAcyclic (depends_on_map steps)
IsAcyclic-by_search steps h a b e =
    depends_on_transitively_complete steps b a
      (no_way_back-Needs steps (depends_on_map steps) a b h e)
