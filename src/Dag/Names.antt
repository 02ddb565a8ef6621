-- ===== src/Dag/Names.antt =====
-- The names of dag.ts: the members of its Sets and the keys of its Maps.
use restitch_gateway.Prelude.{
  ◌≡◌, refl, ◌∙◌, inl, inr, true, false, List, [], ◌∷◌, ◌++◌, map, arith, Str, ◌===◌, ===_iff,
  Bool-cases, includes, includes-append, includes-filter, any, All, set_add, includes-set_add, ◌||◌,
  if◌then◌else◌,
}
use restitch_gateway.Dag.{
  DagStep, StrMap, or_empty, dep_entry, map_get, map_set, map_from, set_from, step_names,
  depends_on_map,
}
use restitch_gateway.Dag.Relation.{Needs}

pub map_get-map_set :
    (m : StrMap) (k j : Str) (v : List Str)
    → map_get (map_set m k v) j ≡ (if k === j then v else map_get m j)
unfolding map_get map_set
map_get-map_set [] k j v = ground arith
map_get-map_set ((i, w) ∷ m) k j v =
    ground (arith, ===_iff i k, ===_iff i j, ===_iff k j, map_get-map_set m k j v)

map_from-known :
    (known : List Str) (m entries : StrMap)
    → ((a b : Str) → Needs m a b → includes known b ≡ true)
    → All (λ e. (b : Str) → includes e.1 b ≡ true → includes known b ≡ true) entries
    → (a b : Str) → Needs (map_from m entries) a b
    → includes known b ≡ true
unfolding map_from
map_from-known known m [] old new a b e = old a b e
map_from-known known m ((k, v) ∷ entries) old (v_known, new) a b e =
    map_from-known known (map_set m k v) entries
      (λ a b e. ground (arith, map_get-map_set m k a v, old a b, v_known b)) new a b e

-- Only existing steps are dependencies.
pub Needs-known :
    (steps : List DagStep) (a b : Str)
    → Needs (depends_on_map steps) a b
    → includes (step_names steps) b ≡ true
unfolding depends_on_map map_get
Needs-known steps = map_from-known (step_names steps) [] _ (λ a b e. cc) (entries_known steps)
  where
    entries_known :
        (some_steps : List DagStep)
        → All
            (λ e. (b : Str) → includes e.1 b ≡ true → includes (step_names steps) b ≡ true)
            (map (dep_entry (step_names steps)) some_steps)
    entries_known [] = tt
    entries_known (s ∷ rest) = (
      λ b m.
          ground (arith, includes-filter (includes (step_names steps)) (or_empty s.depends_on) b),
      entries_known rest,
    )

-- No text stands twice in the list.
abbrev pub NoRepeat : List Str → Type 0
NoRepeat [] = Unit
NoRepeat (x ∷ xs) = (includes xs x ≡ false) × NoRepeat xs

NoRepeat-concat :
    (xs : List Str) (a : Str) → NoRepeat xs → includes xs a ≡ false → NoRepeat (xs ++ a ∷ [])
NoRepeat-concat [] a h new = (refl, tt)
NoRepeat-concat (x ∷ xs) a h new = (
  ground (arith, includes-append xs (a ∷ []) x, ===_iff x a, ===_iff a x),
  NoRepeat-concat xs a h.1 (ground arith),
)

set_from-NoRepeat : (seen xs : List Str) → NoRepeat seen → NoRepeat (set_from seen xs)
unfolding set_from set_add
set_from-NoRepeat seen [] h = h
set_from-NoRepeat seen (x ∷ xs) h = elim (Bool-cases (includes seen x)) [
  | inl old ↦ rw old (set_from-NoRepeat seen xs h)
  | inr new ↦ rw new (set_from-NoRepeat (seen ++ x ∷ []) xs (NoRepeat-concat seen x h new))
]

includes-set_from :
    (seen xs : List Str) (a : Str)
    → includes (set_from seen xs) a ≡ (includes seen a || includes xs a)
unfolding set_from
includes-set_from seen [] a = ground arith
includes-set_from seen (x ∷ xs) a =
    ground (arith, includes-set_from (set_add seen x) xs a, includes-set_add seen x a)

pub step_names-NoRepeat : (steps : List DagStep) → NoRepeat (step_names steps)
unfolding step_names
step_names-NoRepeat steps = set_from-NoRepeat [] (map (λ s. s.name) steps) tt

pub includes-step_names :
    (steps : List DagStep) (a : Str) → includes (step_names steps) a ≡ any (λ s. s.name === a) steps
unfolding step_names
includes-step_names steps a =
    includes-set_from [] (map (λ s. s.name) steps) a ∙ includes-names steps
  where
    includes-names :
        (l : List DagStep) → includes (map (λ s. s.name) l) a ≡ any (λ s. s.name === a) l
    includes-names [] = refl
    includes-names (s ∷ l) = ground (arith, includes-names l)
