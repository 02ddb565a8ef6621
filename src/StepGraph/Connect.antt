-- ===== src/StepGraph/Connect.antt =====
-- Drawing an edge in step-graph.tsx: the answers of `connect`, and cycles.

use restitch_gateway.Prelude.{
  ◌≡◌, ◌≢◌, sym, ap, ◌∙◌, ◌⊎◌, inl, inr, Bool, true, false, none, some, List, [], ◌∷◌, ◌++◌, map,
  arith, Str, ◌===◌, ===_iff, Bool-cases, Option-cases, find, any, includes, includes-append,
}
use restitch_gateway.Values.{Fields, get_field}
use restitch_gateway.Dag.{depends_on_transitively}
use restitch_gateway.Dag.Names.{NoRepeat}
use restitch_gateway.Dag.Relation.{Needs, Reach, IsAcyclic, IsAcyclic-grows}
use restitch_gateway.Dag.Search.{
  depends_on_transitively_total, depends_on_transitively_sound, depends_on_transitively_complete,
}
use restitch_gateway.StepGraph.{
  Named, Inferred, named, with_depends_on, runtime, no_error, itself, cycle, GraphState, Outcome,
  connect_to, connect, depends_on_key,
}
use restitch_gateway.StepGraph.Names.{
  replaced, find-replaced, named-with_depends_on, with_depends_on-other,
}
use restitch_gateway.StepGraph.Runtime.{
  graph_map, Needs→waits, waits→Needs, find-name, names-replaced, names_of-eq,
}

-- The names of a composition's steps are distinct.
abbrev pub HasDistinctNames : List Fields → Type 0
HasDistinctNames steps = NoRepeat (map (λ n. n.name) (named steps))

-- The new list of `target` adds one edge at most.
grows :
    (list : List Named) (inferred : Inferred) (step dep : Str) (target : Named)
    → NoRepeat (map (λ n. n.name) list)
    → find (λ n. n.name === step) list ≡ some target
    → (a b : Str)
    → Needs (graph_map (map (replaced step (target.depends_on ++ dep ∷ [])) list) inferred) a b
    → Needs (graph_map list inferred) a b ⊎ (a ≡ step) × (b ≡ dep)
grows list inferred step dep target h found a b e =
    let next = target.depends_on ++ dep ∷ [] in
    let same_names = names-replaced step next list in
    let (n, at_a, w) =
      Needs→waits (map (replaced step next) list) inferred a b (rw same_names h) e in
    let w_old = rw (names_of-eq (map (replaced step next) list) list same_names) at w in
    elim (Option-cases (find (λ m. m.name === a) list)) [
      | inl absent ↦ absurd (cc (find-replaced a step next list))
      | inr (m, found_m) ↦
          let e_n : replaced step next m ≡ n = ground (arith, find-replaced a step next list) in
          let w_m = rw (← e_n) at w_old in
          elim (Bool-cases (m.name === step)) [
            | inr other ↦ inl (waits→Needs list inferred a b m h found_m (rw other at w_m))
            | inl same ↦
                let m_step : m.name ≡ step = (===_iff m.name step).0 same in
                let a_step : a ≡ step = sym (find-name list a m found_m) ∙ m_step in
                let m_target : m ≡ target =
                  cc (found_m, found, ap (λ k. find (λ q. q.name === k) list) a_step) in
                let w_new = rw same at w_m in
                elim (Bool-cases (dep === b)) [
                  | inl new ↦ inr (a_step, sym ((===_iff dep b).0 new))
                  | inr old ↦ inl (
                      waits→Needs list inferred a b m h found_m (
                        ground (
                          arith,
                          w_new,
                          ap (λ (q : Named). q.depends_on) m_target,
                          includes-append target.depends_on (dep ∷ []) b,
                        )))
                ]
          ]
    ]

-- What `connect` answers for a step that exists: the new state, and the new steps if there are any.
module _ (steps : List Fields) (inferred : Inferred) (st : GraphState) (step dep : Str)
    (target : Named) where
  abbrev Known : Type 0
  Known = any (λ s. s.name === dep) (named steps) ≡ true

  abbrev DependsAlready : Type 0
  DependsAlready = Reach (graph_map (named steps) inferred) dep step

  pub data Answer (out : Outcome) : Type 0 where
    unknown : any (λ s. s.name === dep) (named steps) ≡ false → out ≡ (st, none) → Answer out
    self : Known → step ≡ dep → out ≡ (record st { error = itself step }, none) → Answer out
    present :
        Known
        → step ≢ dep
        → includes target.depends_on dep ≡ true
        → out ≡ (record st { error = no_error }, none)
        → Answer out
    closes :
        Known
        → step ≢ dep
        → includes target.depends_on dep ≡ false
        → DependsAlready
        → out ≡ (record st { error = cycle step dep }, none)
        → Answer out
    added :
        Known
        → step ≢ dep
        → includes target.depends_on dep ≡ false
        → ¬ DependsAlready
        → out ≡ (
          record st { error = no_error },
          some (with_depends_on steps step (target.depends_on ++ dep ∷ [])),
        )
        → Answer out

  connect_to-Answer : Answer (connect_to steps inferred st step dep (some target))
  unfolding connect_to
  connect_to-Answer = elim (Bool-cases (any (λ s. s.name === dep) (named steps))) [
    | inr missing ↦ unknown missing (rw missing)
    | inl known ↦ elim (Bool-cases (step === dep)) [
      | inl same ↦ self known ((===_iff step dep).0 same) (rw (known, same))
      | inr distinct ↦
          let other : step ≢ dep = λ e. cc ((===_iff step dep).1 e, distinct) in
          elim (Bool-cases (includes target.depends_on dep)) [
            | inl old ↦ present known other old (rw (known, distinct, old))
            | inr new ↦
                let (b, e) =
                  depends_on_transitively_total (runtime (named steps) inferred) dep step in
                search_answer known other distinct new b e
          ]
    ]
  ]
    where
      search_answer :
          Known
          → step ≢ dep
          → step === dep ≡ false
          → includes target.depends_on dep ≡ false
          → (b : Bool) → depends_on_transitively (runtime (named steps) inferred) dep step ≡ some b
          → Answer (connect_to steps inferred st step dep (some target))
      search_answer known other distinct new true e =
          closes known other new (depends_on_transitively_sound _ dep step e)
            (rw (known, distinct, new, e))
      search_answer known other distinct new false e =
          added known other new (depends_on_transitively_complete _ dep step e)
            (rw (known, distinct, new, e))

-- For a step that exists, `connect` gives one of five answers. If the dependency does not exist,
-- nothing changes. Otherwise an edge from a step to itself is refused with its alert; an edge that
-- is there already clears the alert; an edge whose dependency already depends on the step, through
-- depends_on and template references, is refused with its alert; and any other edge clears the
-- alert and passes on the steps with the dependency behind the step's own.
pub connect-Answer :
    (steps : List Fields) (inferred : Inferred) (st : GraphState) (step dep : Str) (target : Named)
    → find (λ s. s.name === step) (named steps) ≡ some target
    → Answer steps inferred st step dep target (connect steps inferred st step dep)
unfolding connect
connect-Answer steps inferred st step dep target found =
    rw found (connect_to-Answer steps inferred st step dep target)

pub connect-some :
    (steps : List Fields) (inferred : Inferred) (st st' : GraphState) (step dep : Str)
    (next : List Fields)
    → connect steps inferred st step dep ≡ (st', some next)
    → (target : Named) × (find (λ s. s.name === step) (named steps) ≡ some target)
      × (next ≡ with_depends_on steps step (target.depends_on ++ dep ∷ []))
      × (includes target.depends_on dep ≡ false)
      × ¬ Reach (graph_map (named steps) inferred) dep step
unfolding connect connect_to
connect-some steps inferred st st' step dep next e =
    elim (Option-cases (find (λ s. s.name === step) (named steps))) [
      | inl missing ↦ absurd (cc (rw (missing, connect_to) at e))
      | inr (target, found) ↦ elim (connect-Answer steps inferred st step dep target found) [
        | unknown _ o ↦ absurd (cc (e, o))
        | self _ _ o ↦ absurd (cc (e, o))
        | present _ _ _ o ↦ absurd (cc (e, o))
        | closes _ _ _ _ o ↦ absurd (cc (e, o))
        | added _ _ new apart o ↦ (target, found, cc (e, o), new, apart)
      ]
    ]

-- With distinct step names and no cycle, an edge that `connect` accepts makes no cycle, not through
-- the template references either.
pub connect-IsAcyclic :
    (steps : List Fields) (inferred : Inferred) (st st' : GraphState) (step dep : Str)
    (next : List Fields)
    → HasDistinctNames steps
    → IsAcyclic (graph_map (named steps) inferred)
    → connect steps inferred st step dep ≡ (st', some next)
    → IsAcyclic (graph_map (named next) inferred)
connect-IsAcyclic steps inferred st st' step dep next h acyclic e =
    let (target, found, made, _, apart) = connect-some steps inferred st st' step dep next e in
    rw (made, named-with_depends_on steps step (target.depends_on ++ dep ∷ []))
      (IsAcyclic-grows (grows (named steps) inferred step dep target h found) acyclic apart)

-- An accepted edge is one more entry behind the depends_on of the steps of that name. The other
-- named steps are as they were, and so is every field but depends_on of every step.
pub connect_adds :
    (steps : List Fields) (inferred : Inferred) (st st' : GraphState) (step dep : Str)
    (next : List Fields) (k : Str)
    → connect steps inferred st step dep ≡ (st', some next)
    → k ≢ depends_on_key
    → (target : Named) × (find (λ s. s.name === step) (named steps) ≡ some target)
      × (includes target.depends_on dep ≡ false)
      × (named next ≡ map (replaced step (target.depends_on ++ dep ∷ [])) (named steps))
      × (map (λ s. get_field s k) next ≡ map (λ s. get_field s k) steps)
connect_adds steps inferred st st' step dep next k e other =
    let (target, found, made, new, _) = connect-some steps inferred st st' step dep next e in
    let longer = target.depends_on ++ dep ∷ [] in
    (
      target,
      found,
      new,
      rw made (named-with_depends_on steps step longer),
      ap (map (λ s. get_field s k)) made ∙ with_depends_on-other steps step longer k other,
    )
