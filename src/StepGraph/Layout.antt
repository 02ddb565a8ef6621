-- ===== src/StepGraph/Layout.antt =====
-- Where the edges of the drawing run: the nodes, and the paths of WaveEdgeView.
use restitch_gateway.Prelude.{
  ℕ, suc, ◌+◌, ◌*◌, ◌<◌, ◌≡◌, ◌↔◌, refl, sym, ap, ◌∙◌, subst, inl, inr, Bool, true, false, ◌&&◌,
  ◌||◌, some, List, [], ◌∷◌, ◌++◌, map, Perm, arith, Str, ◌===◌, ◌==◌, ltb, ltb→lt, find,
  Bool-cases, any, flatten, includes, includes-append,
}
use mathlib.Core.List.Perm
use mathlib.Core.Bool.{Bool-set}
use mathlib.Core.List.{append_assoc, foldr}
use restitch_gateway.Dag.{StrMap, step_names}
use restitch_gateway.Dag.Names.{NoRepeat, includes-step_names}
use restitch_gateway.Dag.Relation.{Needs, IsAcyclic}
use restitch_gateway.Dag.Order.{IsLayered, compute_waves_groups, compute_waves_layers}
use restitch_gateway.StepGraph.{
  Named, Inferred, names_of, runtime, runtime_step, step_edges, Node, wave_nodes, place_nodes,
  graph_nodes, col, node_width, EdgePath, bow, bezier, edge_path,
}
use restitch_gateway.StepGraph.Runtime.{graph_map, Needs→waits}
use restitch_gateway.StepGraph.Edges.{draws, any-append, step_edges_iff}

-- A node of the name stands in column `i`.
abbrev pub HasColumn : List Node → Str → ℕ → Type 0
HasColumn nodes name i = any (λ n. n.id === name && n.x == i * col) nodes ≡ true

==_refl : (n : ℕ) → (n == n) ≡ true
==_refl n = ground arith

wave-HasColumn :
    (x y : ℕ) (wave : List Str) (a : Str)
    → includes wave a ≡ true
    → HasColumn (wave_nodes x y wave) a x
unfolding wave_nodes
wave-HasColumn x y [] a h = cc
wave-HasColumn x y (name ∷ wave) a h = elim (Bool-cases (name === a)) [
  | inl e ↦ rw (e, ==_refl (x * col)) refl
  | inr e ↦ rw e (wave-HasColumn x (y + 1) wave a (ground (arith, h, e)))
]

append-HasColumn_left :
    (xs ys : List Node) (a : Str) (i : ℕ) → HasColumn xs a i → HasColumn (xs ++ ys) a i
append-HasColumn_left xs ys a i h =
    rw (any-append (λ n. n.id === a && n.x == i * col) xs ys, h) refl

append-HasColumn_right :
    (xs ys : List Node) (a : Str) (i : ℕ) → HasColumn ys a i → HasColumn (xs ++ ys) a i
append-HasColumn_right xs ys a i h =
    any-append (λ n. n.id === a && n.x == i * col) xs ys ∙ ground (arith, h)

-- The steps of `done` stand among `nodes` in columns before `k`.
abbrev AreLeft : List Str → ℕ → List Node → Type 0
AreLeft done k nodes = (d : Str) → includes done d ≡ true → (i : ℕ) × (i < k) × HasColumn nodes d i

-- `b` stands to the left of `a`.
abbrev pub RunsRight : List Node → Str → Str → Type 0
RunsRight nodes b a = (i : ℕ) × (j : ℕ) × (i < j) × HasColumn nodes b i × HasColumn nodes a j

module _ (deps : StrMap) where
  AreLeft-wave :
      (w done : List Str) (k : ℕ) (nodes : List Node)
      → AreLeft done k nodes
      → AreLeft (w ++ done) (k + 1) (nodes ++ wave_nodes k 0 w)
  AreLeft-wave w done k nodes before d m = elim (Bool-cases (includes w d)) [
    | inl e ↦ (k, omega arith, append-HasColumn_right nodes _ d k (wave-HasColumn k 0 w d e))
    | inr e ↦
        let (i, lt, c) = before d (ground (arith, includes-append w done d, m, e)) in
        (i, omega (arith, lt), append-HasColumn_left nodes _ d i c)
  ]

  place-RunsRight :
      (ws : List (List Str)) (k : ℕ) (done prev : List Str) (nodes : List Node)
      → IsLayered deps done prev ws
      → AreLeft done k nodes
      → (a b : Str) → includes (flatten ws) a ≡ true
      → Needs deps a b
      → RunsRight (nodes ++ place_nodes k ws) b a
  unfolding place_nodes
  place-RunsRight [] k done prev nodes h before a b m needs = absurd (cc m)
  place-RunsRight (w ∷ ws) k done prev nodes (filled, placed, h) before a b m needs =
      elim (Bool-cases (includes w a)) [
        | inl e ↦
            let (i, lt, c) = before b ((placed a e).behind b needs) in
            (
              i,
              k,
              lt,
              append-HasColumn_left nodes _ b i c,
              append-HasColumn_right nodes _ a k
                  (append-HasColumn_left (wave_nodes k 0 w) _ a k (wave-HasColumn k 0 w a e)),
            )
        | inr e ↦
            subst (λ ns. RunsRight ns b a)
              (append_assoc nodes (wave_nodes k 0 w) (place_nodes (k + 1) ws))
              (place-RunsRight ws (k + 1) (w ++ done) w (nodes ++ wave_nodes k 0 w) h
                (AreLeft-wave w done k nodes before) a b
                (ground (arith, includes-append w (flatten ws) a, m, e)) needs)
      ]

includes-foldr : (xs : List Str) (a : Str) → includes xs a ≡ foldr (λ x r. x === a || r) false xs
includes-foldr [] a = refl
includes-foldr (x ∷ xs) a = ap (λ r. x === a || r) (includes-foldr xs a)

includes-perm : (xs ys : List Str) (a : Str) → Perm xs ys → includes xs a ≡ includes ys a
includes-perm xs ys a p =
    includes-foldr xs a
    ∙ Perm.foldr-eq Bool-set (λ x r. x === a || r) (λ x y r. ground arith) p false
    ∙ sym (includes-foldr ys a)

any-runtime :
    (list : List Named) (inferred : Inferred) (names : List Str) (a : Str) (n : Named)
    → find (λ m. m.name === a) list ≡ some n
    → any (λ s. s.name === a) (map (runtime_step inferred names) list) ≡ true
any-runtime [] inferred names a n e = cc
any-runtime (m ∷ list) inferred names a n e = elim (Bool-cases (m.name === a)) [
  | inl f ↦ rw f refl
  | inr f ↦ rw f (any-runtime list inferred names a n (rw f at e))
]

-- A step that waits for another has an entry.
Needs-known_left :
    (list : List Named) (inferred : Inferred) (a b : Str)
    → NoRepeat (map (λ n. n.name) list)
    → Needs (graph_map list inferred) a b
    → includes (step_names (runtime list inferred)) a ≡ true
unfolding runtime
Needs-known_left list inferred a b h needs =
    let (n, found, w) = Needs→waits list inferred a b h needs in
    includes-step_names (runtime list inferred) a
    ∙ any-runtime list inferred (names_of list) a n found

-- An edge bows exactly when it skips a column.
abbrev pub is_bow : EdgePath → Bool
is_bow (bow p q r s) = true
is_bow (bezier p q) = false

lt→ltb : (a b : ℕ) → a < b → ltb a b ≡ true
lt→ltb a b h = ground arith

edge_path-skips :
    (i j y z : ℕ) → (is_bow (edge_path (i * col + node_width) y (j * col) z) ≡ true) ↔ (suc i < j)
unfolding edge_path
edge_path-skips i j y z = elim (Bool-cases (ltb (i * col + node_width + col) (j * col))) [
  | inl e ↦ (λ _. omega (arith, ltb→lt (i * col + node_width + col) (j * col) e), λ _. rw e refl)
  | inr e ↦ (
    λ h. absurd (cc (rw e at h)),
    λ h. absurd (cc (e, lt→ltb (i * col + node_width + col) (j * col) (omega (arith, h)))),
  )
]

-- With distinct step names and no step that waits for itself, an edge of the drawing runs to the right:
-- it leads from a node of its source in some column to a node of its target in a later one, and its path,
-- from the right side of the one to the left side of the other, bows exactly when there is a column
-- between them.
pub step_edges-RunsRight :
    (list : List Named) (inferred : Inferred) (selected : List Str) (b a : Str)
    → NoRepeat (map (λ n. n.name) list)
    → IsAcyclic (graph_map list inferred)
    → draws (λ e. true) (step_edges list inferred selected) b a ≡ true
    → (i : ℕ) × (j : ℕ) × (i < j)
      × HasColumn (graph_nodes list inferred) b i
      × HasColumn (graph_nodes list inferred) a j
      × ((y z : ℕ) → (is_bow (edge_path (i * col + node_width) y (j * col) z) ≡ true) ↔ (suc i < j))
unfolding graph_nodes
step_edges-RunsRight list inferred selected b a distinct acyclic drawn =
    let needs = (step_edges_iff list inferred selected b a distinct).0 drawn in
    let steps = runtime list inferred in
    let (ws, e, p, _, _, _) = compute_waves_groups steps in
    let (i, j, lt, from, to) =
      place-RunsRight (graph_map list inferred) ws 0 [] [] []
        (compute_waves_layers steps ws acyclic e) (λ d m. absurd (cc m)) a b
        (includes-perm (flatten ws) (step_names steps) a p
          ∙ Needs-known_left list inferred a b distinct needs)
        needs in
    rw e (i, j, lt, from, to, λ y z. edge_path-skips i j y z)
