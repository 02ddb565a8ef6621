-- ===== src/StepGraph/Runtime.antt =====
-- The dependencies at run time, read off the named steps, and what a new list for one step adds.

use restitch_gateway.Prelude.{
  ◌≡◌, refl, sym, ap, ◌∙◌, inl, inr, Bool, true, false, not, ◌&&◌, ◌||◌, Option, none, some, List,
  [], ◌∷◌, ◌++◌, map, arith, Str, ◌===◌, ===_iff, if◌then◌else◌, Bool-cases, Option-cases, filter,
  find, includes, includes-append, includes-filter,
}
use restitch_gateway.Dag.{
  StrMap, dep_entry, set_from, map_get, map_set, map_from, step_names, depends_on_map,
}
use restitch_gateway.Dag.Names.{NoRepeat, map_get-map_set}
use restitch_gateway.Dag.Relation.{Needs}
use restitch_gateway.StepGraph.{Named, Inferred, names_of, inferred_for, runtime, runtime_step}
use restitch_gateway.StepGraph.Names.{replaced}

abbrev entry_keys : StrMap → List Str
entry_keys m = map (λ e. e.0) m

-- With distinct keys, a map from entries reads as the entries do.
map_get-map_from :
    (m entries : StrMap) (k : Str)
    → NoRepeat (entry_keys entries)
    → map_get (map_from m entries) k
      ≡ (if includes (entry_keys entries) k then map_get entries k else map_get m k)
unfolding map_from map_get
map_get-map_from m [] k h = refl
map_get-map_from m ((j, v) ∷ entries) k (new, h) =
    ground
      (arith, map_get-map_from (map_set m j v) entries k h, map_get-map_set m j k v, ===_iff j k)

-- The dependencies of one named step at run time.
abbrev pub runtime_deps : Inferred → List Str → Named → List Str
runtime_deps inferred names n = n.depends_on ++ inferred_for n inferred names

abbrev pub or_nothing : Option Named → (Named → List Str) → List Str
or_nothing none f = []
or_nothing (some n) f = f n

names-runtime :
    (inferred : Inferred) (names : List Str) (list : List Named)
    → map (λ s. s.name) (map (runtime_step inferred names) list) ≡ map (λ s. s.name) list
names-runtime inferred names [] = refl
names-runtime inferred names (n ∷ list) = ap (λ r. n.name ∷ r) (names-runtime inferred names list)

pub step_names-runtime :
    (list : List Named) (inferred : Inferred) → step_names (runtime list inferred) ≡ names_of list
unfolding step_names names_of runtime
step_names-runtime list inferred = ap (set_from []) (names-runtime inferred _ list)

keys-runtime :
    (inferred : Inferred) (names known : List Str) (list : List Named)
    → entry_keys (map (dep_entry known) (map (runtime_step inferred names) list))
      ≡ map (λ s. s.name) list
keys-runtime inferred names known [] = refl
keys-runtime inferred names known (n ∷ list) =
    ap (λ r. n.name ∷ r) (keys-runtime inferred names known list)

get-runtime :
    (inferred : Inferred) (names known : List Str) (list : List Named) (a : Str)
    → map_get (map (dep_entry known) (map (runtime_step inferred names) list)) a
      ≡ or_nothing
          (find (λ n. n.name === a) list)
          (λ n. filter (includes known) (runtime_deps inferred names n))
unfolding map_get
get-runtime inferred names known [] a = refl
get-runtime inferred names known (n ∷ list) a =
    ground (arith, get-runtime inferred names known list a)

find-none :
    (list : List Named) (a : Str)
    → includes (map (λ n. n.name) list) a ≡ false
    → find (λ n. n.name === a) list ≡ none
find-none [] a h = refl
find-none (n ∷ list) a h = ground (arith, find-none list a)

-- With distinct names, a step waits for what its own entry lists, as far as it exists.
pub get-depends_on_map :
    (list : List Named) (inferred : Inferred) (a : Str)
    → NoRepeat (map (λ n. n.name) list)
    → map_get (depends_on_map (runtime list inferred)) a
      ≡ or_nothing
          (find (λ n. n.name === a) list)
          (λ n. filter (includes (names_of list)) (runtime_deps inferred (names_of list) n))
unfolding depends_on_map runtime map_get
get-depends_on_map list inferred a h =
    let names = names_of list in
    let entries = map (dep_entry names) (map (runtime_step inferred names) list) in
    let same_keys = keys-runtime inferred names names list in
    rw (step_names-runtime list inferred) (
      map_get-map_from [] entries a (rw same_keys h)
      ∙ elim (Bool-cases (includes (entry_keys entries) a)) [
        | inl listed ↦ rw listed (get-runtime inferred names names list a)
        | inr missing ↦ rw (missing, find-none list a (rw (← same_keys) missing))
      ])

-- The edge relation of the graph at run time.
abbrev pub graph_map : List Named → Inferred → StrMap
graph_map list inferred = depends_on_map (runtime list inferred)

-- What `n` waits for, as a test on `b`.
abbrev pub waits_for : Inferred → List Str → Str → Named → Bool
waits_for inferred names b n =
    includes names b
    && (includes n.depends_on b || (not (b === n.name) && includes (map_get inferred n.name) b))

pub includes-runtime :
    (inferred : Inferred) (names : List Str) (b : Str) (n : Named)
    → includes (filter (includes names) (runtime_deps inferred names n)) b
      ≡ waits_for inferred names b n
unfolding inferred_for
includes-runtime inferred names b n = ground (
  arith,
  includes-filter (includes names) (runtime_deps inferred names n) b,
  includes-append n.depends_on (inferred_for n inferred names) b,
  includes-filter (λ d. not (d === n.name) && (includes names d && not (includes n.depends_on d)))
      (map_get inferred n.name) b,
)

pub Needs→waits :
    (list : List Named) (inferred : Inferred) (a b : Str)
    → NoRepeat (map (λ n. n.name) list)
    → Needs (graph_map list inferred) a b
    → (n : Named) × (find (λ m. m.name === a) list ≡ some n)
      × (waits_for inferred (names_of list) b n ≡ true)
Needs→waits list inferred a b h e = elim (Option-cases (find (λ m. m.name === a) list)) [
  | inl absent ↦ absurd (cc (rw (get-depends_on_map list inferred a h, absent) at e))
  | inr (n, found) ↦ (
    n,
    found,
    sym (includes-runtime inferred (names_of list) b n)
        ∙ (rw (get-depends_on_map list inferred a h, found) at e),
  )
]

pub waits→Needs :
    (list : List Named) (inferred : Inferred) (a b : Str) (n : Named)
    → NoRepeat (map (λ n. n.name) list)
    → find (λ m. m.name === a) list ≡ some n
    → waits_for inferred (names_of list) b n ≡ true
    → Needs (graph_map list inferred) a b
waits→Needs list inferred a b n h found w =
    rw (get-depends_on_map list inferred a h, found)
      (includes-runtime inferred (names_of list) b n ∙ w)

-- The step that is found has the name that was looked for.
pub find-name :
    (list : List Named) (a : Str) (n : Named) → find (λ m. m.name === a) list ≡ some n → n.name ≡ a
find-name [] a n e = cc
find-name (m ∷ list) a n e = ground (arith, ===_iff m.name a, find-name list a n)

pub names-replaced :
    (step : Str) (next : List Str) (list : List Named)
    → map (λ n. n.name) (map (replaced step next) list) ≡ map (λ n. n.name) list
names-replaced step next [] = refl
names-replaced step next (n ∷ list) = rw (names-replaced step next list) (ground arith)

pub names_of-eq :
    (list more : List Named)
    → map (λ n. n.name) list ≡ map (λ n. n.name) more
    → names_of list ≡ names_of more
unfolding names_of
names_of-eq list more e = ap (set_from []) e
