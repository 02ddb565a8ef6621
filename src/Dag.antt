-- ===== src/Dag.antt =====
-- studio/src/lib/dag.ts: the step graph of a composition, the search for a transitive dependency
-- and the grouping of the steps into waves.
pub mod Relation
pub mod Search
pub mod Waves
pub mod Names
pub mod Descent
pub mod Order
pub mod Tests
use mathlib.Core.List.{reverse}
use restitch_gateway.Prelude.{
  ℕ, zero, suc, ◌+◌, Bool, true, false, not, Option, none, some, List, [], ◌∷◌, ◌++◌, map, Str,
  ◌===◌, if◌then◌else◌, length, filter, every, includes, set_add,
}

-- A missing `depends_on` is `none`.
pub record DagStep : Type 0 where
  pub name : Str
  pub depends_on : Option (List Str)

-- A JavaScript `Map` with text keys: a key that is set again keeps its place.
abbrev pub StrMap : Type 0
StrMap = List (Str × List Str)

unfoldable pub map_set : StrMap → Str → List Str → StrMap
map_set [] k v = (k, v) ∷ []
map_set ((j, w) ∷ m) k v = if j === k then (j, v) ∷ m else (j, w) ∷ map_set m k v

-- `new Map(entries)`, entry by entry.
unfoldable pub map_from : StrMap → StrMap → StrMap
map_from m [] = m
map_from m ((k, v) ∷ entries) = map_from (map_set m k v) entries

-- `map.get(k) ?? []`.
unfoldable pub map_get : StrMap → Str → List Str
map_get [] k = []
map_get ((j, v) ∷ m) k = if j === k then v else map_get m k

-- `new Set(texts)`.
unfoldable pub set_from : List Str → List Str → List Str
set_from seen [] = seen
set_from seen (x ∷ xs) = set_from (set_add seen x) xs

unfoldable pub step_names : List DagStep → List Str
step_names steps = set_from [] (map (λ s. s.name) steps)

abbrev pub or_empty : Option (List Str) → List Str
or_empty none = []
or_empty (some ds) = ds

abbrev pub dep_entry : List Str → DagStep → Str × List Str
dep_entry names s = (s.name, filter (includes names) (or_empty s.depends_on))

unfoldable pub depends_on_map : List DagStep → StrMap
depends_on_map steps = map_from [] (map (dep_entry (step_names steps)) steps)

-- The `while` loop of the search. The head of `stack` is the end of the array, where `pop` and
-- `push` work. `none` means that the fuel ran out.
unfoldable pub search_loop : ℕ → StrMap → Str → List Str → List Str → Option Bool
search_loop fuel deps target seen [] = some false
search_loop zero deps target seen (cur ∷ stack) = none
search_loop (suc fuel) deps target seen (cur ∷ stack) =
    let skip = search_loop fuel deps target seen stack in
    let expand =
      search_loop fuel deps target (set_add seen cur) (reverse (map_get deps cur) ++ stack) in
    if cur === target then some true else if includes seen cur then skip else expand

-- As many entries as are ever pushed: one for the start and each list of the map once.
unfoldable pub search_fuel : StrMap → ℕ
search_fuel [] = 1
search_fuel ((k, v) ∷ m) = length v + search_fuel m

unfoldable pub depends_on_transitively : List DagStep → Str → Str → Option Bool
depends_on_transitively steps step target =
    let deps = depends_on_map steps in search_loop (search_fuel deps) deps target [] (step ∷ [])

-- No dependency of `name` is in `remaining`.
unfoldable pub is_ready : StrMap → List Str → Str → Bool
is_ready deps remaining name = every (λ d. not (includes remaining d)) (map_get deps name)

abbrev pub or_all : List Str → List Str → List Str
or_all [] remaining = remaining
or_all (x ∷ wave) remaining = x ∷ wave

unfoldable pub next_wave : StrMap → List Str → List Str
next_wave deps remaining = or_all (filter (is_ready deps remaining) remaining) remaining

-- `for (const name of next) remaining.delete(name)`.
unfoldable pub delete_all : List Str → List Str → List Str
delete_all wave remaining = filter (λ x. not (includes wave x)) remaining

unfoldable pub waves_loop : ℕ → StrMap → List Str → Option (List (List Str))
waves_loop fuel deps [] = some []
waves_loop zero deps (x ∷ xs) = none
waves_loop (suc fuel) deps (x ∷ xs) =
    let wave = next_wave deps (x ∷ xs) in
    elim (waves_loop fuel deps (delete_all wave (x ∷ xs))) [
      | none ↦ none
      | some waves ↦ some (wave ∷ waves)
    ]

unfoldable pub compute_waves : List DagStep → Option (List (List Str))
compute_waves steps =
    waves_loop (length (step_names steps)) (depends_on_map steps) (step_names steps)
