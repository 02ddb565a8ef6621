-- ===== src/StepGraph/Edges.antt =====
-- Which edges are drawn, and in which of the two forms.

use restitch_gateway.Prelude.{
  ◌≡◌, refl, ap, ap₂, ◌∙◌, ◌↔◌, inl, inr, Bool, true, false, not, ◌&&◌, ◌||◌, Option, none, some,
  List, [], ◌∷◌, ◌++◌, map, arith, Str, ◌===◌, ===_iff, Bool-cases, Option-cases, filter, find, any,
  flat_map, includes, includes-filter,
}
use restitch_gateway.Dag.{map_get}
use restitch_gateway.Dag.Names.{NoRepeat}
use restitch_gateway.Dag.Relation.{Needs}
use restitch_gateway.StepGraph.{
  Named, Inferred, names_of, inferred_for, Edge, solid_edge, template_edge, step_edges,
  is_deletable,
}
use restitch_gateway.StepGraph.Runtime.{graph_map, Needs→waits, waits→Needs}

-- An edge of the kind `p` from `b` to `a` is among the edges.
abbrev pub draws : (Edge → Bool) → List Edge → Str → Str → Bool
draws p edges b a = any (λ e. p e && (e.source === b && e.target === a)) edges

pub any-append {ℓ} :
    {A : Type ℓ} (p : A → Bool) (xs ys : List A) → any p (xs ++ ys) ≡ (any p xs || any p ys)
any-append p [] ys = refl
any-append p (x ∷ xs) ys = ground (arith, any-append p xs ys)

any-map {ℓ κ} :
    {A : Type ℓ} {B : Type κ} (p : B → Bool) (f : A → B) (xs : List A)
    → any p (map f xs) ≡ any (λ x. p (f x)) xs
any-map p f [] = refl
any-map p f (x ∷ xs) = ap (λ r. p (f x) || r) (any-map p f xs)

any-flat_map {ℓ κ} :
    {A : Type ℓ} {B : Type κ} (p : B → Bool) (f : A → List B) (xs : List A)
    → any p (flat_map f xs) ≡ any (λ x. any p (f x)) xs
any-flat_map p f [] = refl
any-flat_map p f (x ∷ xs) =
    any-append p (f x) (flat_map f xs) ∙ ap (λ r. any p (f x) || r) (any-flat_map p f xs)

any-eq {ℓ} :
    {A : Type ℓ} (p q : A → Bool) (xs : List A) → ((x : A) → p x ≡ q x) → any p xs ≡ any q xs
any-eq p q [] h = refl
any-eq p q (x ∷ xs) h = ap₂ (λ a b. a || b) (h x) (any-eq p q xs h)

any-equal : (c : Bool) (b : Str) (ds : List Str) → any (λ d. d === b && c) ds ≡ (includes ds b && c)
any-equal c b [] = refl
any-equal c b (d ∷ ds) = ground (arith, any-equal c b ds)

any-never : (ds : List Str) → any (λ d. false) ds ≡ false
any-never [] = refl
any-never (d ∷ ds) = any-never ds

abbrev kept : Edge → Bool
kept e = not (is_deletable e)

module _ (selected ds : List Str) (n : Str) (b a : Str) where
  solid-deletable :
      draws is_deletable (map (solid_edge selected n) ds) b a ≡ (includes ds b && n === a)
  unfolding solid_edge
  solid-deletable = any-map _ (solid_edge selected n) ds ∙ any-equal (n === a) b ds

  solid-kept : draws kept (map (solid_edge selected n) ds) b a ≡ false
  unfolding solid_edge
  solid-kept = any-map _ (solid_edge selected n) ds ∙ any-never ds

module _ (ds : List Str) (n : Str) (b a : Str) where
  template-deletable : draws is_deletable (map (template_edge n) ds) b a ≡ false
  unfolding template_edge
  template-deletable = any-map _ (template_edge n) ds ∙ any-never ds

  template-kept : draws kept (map (template_edge n) ds) b a ≡ (includes ds b && n === a)
  unfolding template_edge
  template-kept = any-map _ (template_edge n) ds ∙ any-equal (n === a) b ds

-- `n` has a removable edge from `b`, or a template edge from `b`.
abbrev solid_from : List Str → Str → Named → Bool
solid_from names b n = includes names b && includes n.depends_on b

abbrev template_from : Inferred → List Str → Str → Named → Bool
template_from inferred names b n =
    not (b === n.name)
    && (includes names b && not (includes n.depends_on b))
    && includes (map_get inferred n.name) b

module _ (list : List Named) (inferred : Inferred) (selected : List Str) (b a : Str) where
  abbrev edges_of : Named → List Edge
  edges_of s =
      map (solid_edge selected s.name) (filter (includes (names_of list)) s.depends_on)
      ++ map (template_edge s.name) (inferred_for s inferred (names_of list))

  -- A removable edge stands for an existing step in depends_on.
  solid_iff :
      draws is_deletable (step_edges list inferred selected) b a
      ≡ any (λ n. solid_from (names_of list) b n && n.name === a) list
  unfolding step_edges
  solid_iff =
      any-flat_map _ edges_of list
      ∙ any-eq _ _ list (λ n.
        any-append _
          (map (solid_edge selected n.name) (filter (includes (names_of list)) n.depends_on)) _
        ∙ rw
            (
              solid-deletable selected (filter (includes (names_of list)) n.depends_on) n.name b a,
              template-deletable (inferred_for n inferred (names_of list)) n.name b a,
              includes-filter (includes (names_of list)) n.depends_on b,
            )
            (ground arith))

  -- A template edge stands for a reference to another existing step that depends_on does not name.
  template_iff :
      draws kept (step_edges list inferred selected) b a
      ≡ any (λ n. template_from inferred (names_of list) b n && n.name === a) list
  unfolding step_edges inferred_for
  template_iff =
      any-flat_map _ edges_of list
      ∙ any-eq _ _ list (λ n.
        any-append _
          (map (solid_edge selected n.name) (filter (includes (names_of list)) n.depends_on)) _
        ∙ rw
            (
              solid-kept selected (filter (includes (names_of list)) n.depends_on) n.name b a,
              template-kept (inferred_for n inferred (names_of list)) n.name b a,
              includes-filter
                  (λ d.
                    not (d === n.name)
                    && (includes (names_of list) d && not (includes n.depends_on d)))
                  (map_get inferred n.name) b,
            )
            (ground arith))

any-absent :
    (p : Named → Bool) (list : List Named) (a : Str)
    → includes (map (λ n. n.name) list) a ≡ false
    → any (λ n. p n && n.name === a) list ≡ false
any-absent p [] a h = refl
any-absent p (n ∷ list) a h = ground (arith, any-absent p list a)

abbrev holds_of : (Named → Bool) → Option Named → Bool
holds_of p none = false
holds_of p (some n) = p n

-- With distinct names, a test on the step of a name is a test on the step that is found.
any-found :
    (p : Named → Bool) (list : List Named) (a : Str)
    → NoRepeat (map (λ n. n.name) list)
    → any (λ n. p n && n.name === a) list ≡ holds_of p (find (λ n. n.name === a) list)
any-found p [] a h = refl
any-found p (n ∷ list) a (new, h) = elim (Bool-cases (n.name === a)) [
  | inl same ↦ ground (arith, same, any-absent p list a (rw (← (===_iff n.name a).0 same) new))
  | inr other ↦ ground (arith, other, any-found p list a h)
]

any-or :
    (edges : List Edge) (b a : Str)
    → draws (λ e. true) edges b a ≡ (draws is_deletable edges b a || draws kept edges b a)
any-or [] b a = refl
any-or (e ∷ edges) b a = elim (Bool-cases (is_deletable e)) [
  | inl yes_e ↦ rw (yes_e, any-or edges b a) (ground arith)
  | inr no_e ↦ rw (no_e, any-or edges b a) (ground arith)
]

-- With distinct step names, an edge runs from one step to another in the drawing exactly when the
-- second waits for the first at run time, through depends_on or through a template reference.
pub step_edges_iff :
    (list : List Named) (inferred : Inferred) (selected : List Str) (b a : Str)
    → NoRepeat (map (λ n. n.name) list)
    → (draws (λ e. true) (step_edges list inferred selected) b a ≡ true)
      ↔ Needs (graph_map list inferred) a b
step_edges_iff list inferred selected b a h =
    let names = names_of list in
    let drawn =
      any-or (step_edges list inferred selected) b a
      ∙ ap₂ (λ x y. x || y)
          (solid_iff list inferred selected b a ∙ any-found (solid_from names b) list a h)
          (template_iff list inferred selected b a
            ∙ any-found (template_from inferred names b) list a h) in
    elim (Option-cases (find (λ n. n.name === a) list)) [
      | inl absent ↦ (
        λ e. absurd (cc (rw absent at drawn, e)),
        λ needs.
            let (m, found, w) = Needs→waits list inferred a b h needs in
            absurd (cc (found, absent)),
      )
      | inr (n, found) ↦
          let at_n = rw found at drawn in
          (
            λ e. waits→Needs list inferred a b n h found (ground (arith, at_n, e)),
            λ needs.
                let (m, found_m, w) = Needs→waits list inferred a b h needs in
                let same : m ≡ n = cc in at_n ∙ ground (arith, rw same at w),
          )
    ]

-- With distinct step names, no edge is drawn both ways: one that can be removed is in depends_on,
-- one that cannot is a reference that depends_on does not name.
pub step_edges_once :
    (list : List Named) (inferred : Inferred) (selected : List Str) (b a : Str)
    → NoRepeat (map (λ n. n.name) list)
    → (draws is_deletable (step_edges list inferred selected) b a
        && draws (λ e. not (is_deletable e)) (step_edges list inferred selected) b a)
      ≡ false
step_edges_once list inferred selected b a h =
    let names = names_of list in
    rw
      (
        solid_iff list inferred selected b a,
        template_iff list inferred selected b a,
        any-found (solid_from names b) list a h,
        any-found (template_from inferred names b) list a h,
      )
      (elim (Option-cases (find (λ n. n.name === a) list)) [
        | inl absent ↦ rw absent
        | inr (n, found) ↦ rw found (ground arith)
      ])
