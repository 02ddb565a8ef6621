-- ===== src/StepGraph/Disconnect.antt =====
-- Deleting edges in step-graph.tsx: the pairs that go, and cycles.
use mathlib.Core.Option
use restitch_gateway.Prelude.{
  ◌≡◌, refl, sym, ap, ap₂, ◌∙◌, inl, inr, Bool, true, false, not, ◌&&◌, ◌||◌, none, some, List, [],
  ◌∷◌, ◌++◌, map, arith, Str, ◌===◌, ===_refl, ===_iff, Bool-cases, Option-cases, filter, find, any,
  includes, includes-filter,
}
use restitch_gateway.Values.{Fields}
use restitch_gateway.Dag.{StrMap}
use restitch_gateway.Dag.Names.{NoRepeat}
use restitch_gateway.Dag.Relation.{Needs, Reach, here, next as onward, IsAcyclic}
use restitch_gateway.StepGraph.{
  Named, Inferred, named, drop_dep, disconnect_all, GraphState, connect, no_error, disconnect,
}
use restitch_gateway.StepGraph.Names.{replaced, named-with_depends_on}
use restitch_gateway.StepGraph.Runtime.{
  graph_map, Needs→waits, waits→Needs, names_of-eq, names-replaced,
}
use restitch_gateway.StepGraph.Connect.{HasDistinctNames, connect-some}

-- The step without the dependencies of the pairs.
abbrev pub without : List (Str × Str) → Named → Named
without pairs n = record n {
  depends_on = filter (λ d. not (any (λ p. p.0 === n.name && p.1 === d) pairs)) n.depends_on;
}

filter-true : (p : Str → Bool) (xs : List Str) → ((a : Str) → p a ≡ true) → filter p xs ≡ xs
filter-true p [] h = refl
filter-true p (x ∷ xs) h = ground (arith, h x, filter-true p xs h)

filter-filter :
    (p q r : Str → Bool) (xs : List Str)
    → ((a : Str) → r a ≡ (p a && q a))
    → filter p (filter q xs) ≡ filter r xs
filter-filter p q r [] h = refl
filter-filter p q r (x ∷ xs) h = ground (arith, h x, filter-filter p q r xs h)

filter-same :
    (p q : Str → Bool) (xs : List Str) → ((a : Str) → p a ≡ q a) → filter p xs ≡ filter q xs
filter-same p q [] h = refl
filter-same p q (x ∷ xs) h = ground (arith, h x, filter-same p q xs h)

without-other :
    (step dep : Str) (n : Named) → n.name === step ≡ false → without ((step, dep) ∷ []) n ≡ n
without-other step dep n h =
    ap (λ ds. record n { depends_on = ds })
      (filter-true (λ d. not (step === n.name && dep === d || false)) n.depends_on
        (λ a. ground (arith, ===_iff step n.name, ===_iff n.name step)))

without_self :
    (step dep : Str) (n : Named)
    → n.name === step ≡ true
    → without ((step, dep) ∷ []) n
      ≡ record n { depends_on = filter (λ d. not (d === dep)) n.depends_on }
without_self step dep n h =
    ap (λ ds. record n { depends_on = ds })
      (filter-same (λ d. not (step === n.name && dep === d || false)) (λ d. not (d === dep))
        n.depends_on
        (λ a.
          ground (arith, ===_iff step n.name, ===_iff n.name step, ===_iff dep a, ===_iff a dep)))

-- With no step of that name, nothing is replaced and nothing dropped.
without-absent :
    (step dep : Str) (list : List Named)
    → includes (map (λ n. n.name) list) step ≡ false
    → map (without ((step, dep) ∷ [])) list ≡ list
without-absent step dep [] h = refl
without-absent step dep (n ∷ list) h =
    ap₂ (λ m l. m ∷ l) (without-other step dep n (ground arith))
      (without-absent step dep list (ground arith))

replaced-absent :
    (step : Str) (ds : List Str) (list : List Named)
    → includes (map (λ n. n.name) list) step ≡ false
    → map (replaced step ds) list ≡ list
replaced-absent step ds [] h = refl
replaced-absent step ds (n ∷ list) h = ground (arith, replaced-absent step ds list)

-- One pair: the list that is written back drops the pair from the one step of that name.
drop_one :
    (step dep : Str) (list : List Named) (t : Named)
    → NoRepeat (map (λ n. n.name) list)
    → find (λ n. n.name === step) list ≡ some t
    → map (replaced step (filter (λ d. not (d === dep)) t.depends_on)) list
      ≡ map (without ((step, dep) ∷ [])) list
drop_one step dep [] t h e = cc
drop_one step dep (n ∷ list) t (new, h) e = elim (Bool-cases (n.name === step)) [
  | inl same ↦
      let found : n ≡ t = cc (rw same at e) in
      let absent : includes (map (λ m. m.name) list) step ≡ false =
        rw (← (===_iff n.name step).0 same) new in
      ap₂ (λ m l. m ∷ l) (rw (same, ← found) (sym (without_self step dep n same)))
        (replaced-absent step (filter (λ d. not (d === dep)) t.depends_on) list absent
          ∙ sym (without-absent step dep list absent))
  | inr other ↦
      ap₂ (λ m l. m ∷ l) (rw other (sym (without-other step dep n other)))
        (drop_one step dep list t h (rw other at e))
]

absent_of_none :
    (step : Str) (list : List Named)
    → find (λ n. n.name === step) list ≡ none
    → includes (map (λ n. n.name) list) step ≡ false
absent_of_none step [] h = refl
absent_of_none step (n ∷ list) h = ground (arith, absent_of_none step list)

named-drop_dep :
    (steps : List Fields) (step dep : Str)
    → HasDistinctNames steps
    → named (drop_dep steps step dep (find (λ s. s.name === step) (named steps)))
      ≡ map (without ((step, dep) ∷ [])) (named steps)
unfolding drop_dep
named-drop_dep steps step dep h = elim (Option-cases (find (λ s. s.name === step) (named steps))) [
  | inl missing ↦
      rw (missing, drop_dep)
        (sym (without-absent step dep (named steps) (absent_of_none step (named steps) missing)))
  | inr (t, found) ↦
      rw (found, drop_dep)
        (named-with_depends_on steps step (filter (λ d. not (d === dep)) t.depends_on)
          ∙ drop_one step dep (named steps) t h found)
]

names-without :
    (pairs : List (Str × Str)) (list : List Named)
    → map (λ n. n.name) (map (without pairs) list) ≡ map (λ n. n.name) list
names-without pairs [] = refl
names-without pairs (n ∷ list) = ap (λ l. n.name ∷ l) (names-without pairs list)

without-none : (list : List Named) → map (without []) list ≡ list
without-none [] = refl
without-none (n ∷ list) =
    ap₂ (λ m l. m ∷ l)
      (ap (λ ds. record n { depends_on = ds }) (filter-true (λ d. true) n.depends_on (λ a. refl)))
      (without-none list)

without-cons :
    (step dep : Str) (pairs : List (Str × Str)) (list : List Named)
    → map (without pairs) (map (without ((step, dep) ∷ [])) list)
      ≡ map (without ((step, dep) ∷ pairs)) list
without-cons step dep pairs [] = refl
without-cons step dep pairs (n ∷ list) =
    ap₂ (λ m l. m ∷ l)
      (ap (λ ds. record n { depends_on = ds })
        (filter-filter (λ d. not (any (λ p. p.0 === n.name && p.1 === d) pairs))
          (λ d. not (step === n.name && dep === d || false))
          (λ d. not (step === n.name && dep === d || any (λ p. p.0 === n.name && p.1 === d) pairs))
          n.depends_on (λ a. ground arith)))
      (without-cons step dep pairs list)

named-disconnect_all :
    (pairs : List (Str × Str)) (steps : List Fields)
    → HasDistinctNames steps
    → named (disconnect_all steps pairs) ≡ map (without pairs) (named steps)
unfolding disconnect_all
named-disconnect_all [] steps h = sym (without-none (named steps))
named-disconnect_all ((step, dep) ∷ pairs) steps h =
    let dropped = named-drop_dep steps step dep h in
    named-disconnect_all pairs _ (rw (dropped, names-without) h)
    ∙ ap (map (without pairs)) dropped
    ∙ without-cons step dep pairs (named steps)

find-without :
    (pairs : List (Str × Str)) (a : Str) (list : List Named)
    → find (λ n. n.name === a) (map (without pairs) list)
      ≡ Option.map (without pairs) (find (λ n. n.name === a) list)
find-without pairs a [] = refl
find-without pairs a (n ∷ list) = elim (Bool-cases (n.name === a)) [
  | inl same ↦ rw same
  | inr other ↦ rw other (find-without pairs a list)
]

without-Needs :
    (list : List Named) (inferred : Inferred) (pairs : List (Str × Str))
    → NoRepeat (map (λ n. n.name) list)
    → (a b : Str) → Needs (graph_map (map (without pairs) list) inferred) a b
    → Needs (graph_map list inferred) a b
without-Needs list inferred pairs h a b e =
    let (n, at_a, w) = Needs→waits (map (without pairs) list) inferred a b (rw names-without h) e in
    let w_old = rw (names_of-eq (map (without pairs) list) list (names-without pairs list)) at w in
    elim (Option-cases (find (λ m. m.name === a) list)) [
      | inl absent ↦ absurd (cc (rw (find-without pairs a list, absent) at at_a))
      | inr (m, found) ↦
          let e_n : without pairs m ≡ n = cc (rw (find-without pairs a list, found) at at_a) in
          waits→Needs list inferred a b m h found (
            ground (
              arith,
              rw (← e_n) at w_old,
              includes-filter (λ d. not (any (λ p. p.0 === m.name && p.1 === d) pairs)) m.depends_on
                  b,
            ))
    ]

Reach-fewer :
    {deps more : StrMap} {a b : Str}
    → ((x y : Str) → Needs deps x y → Needs more x y)
    → Reach deps a b
    → Reach more a b
Reach-fewer h here = here
Reach-fewer h (onward {b} {c} p e) = onward (Reach-fewer h p) (h b c e)

-- With distinct step names, `disconnect` clears the alert and passes on the steps without exactly
-- the dependencies of the given pairs.
pub disconnect_removes :
    (steps : List Fields) (st : GraphState) (pairs : List (Str × Str))
    → HasDistinctNames steps
    → (left : List Fields) × (disconnect steps st pairs
        ≡ (record st { error = no_error }, some left))
      × (named left ≡ map (without pairs) (named steps))
unfolding disconnect
disconnect_removes steps st pairs h =
    (disconnect_all steps pairs, refl, named-disconnect_all pairs steps h)

-- With distinct step names, deleting edges of a graph without a cycle leaves no cycle.
pub disconnect-IsAcyclic :
    (steps : List Fields) (inferred : Inferred) (st st' : GraphState) (pairs : List (Str × Str))
    (left : List Fields)
    → HasDistinctNames steps
    → IsAcyclic (graph_map (named steps) inferred)
    → disconnect steps st pairs ≡ (st', some left)
    → IsAcyclic (graph_map (named left) inferred)
unfolding disconnect
disconnect-IsAcyclic steps inferred st st' pairs left h acyclic e =
    let same : disconnect_all steps pairs ≡ left = cc in
    let fewer = without-Needs (named steps) inferred pairs h in
    rw (← same, named-disconnect_all pairs steps h)
      (λ a b n p. acyclic a b (fewer a b n) (Reach-fewer fewer p))

filter-concat_same :
    (dep : Str) (ds : List Str)
    → includes ds dep ≡ false
    → filter (λ d. not (d === dep)) (ds ++ dep ∷ []) ≡ ds
filter-concat_same dep [] h = rw (===_refl dep)
filter-concat_same dep (d ∷ ds) h = ground (arith, filter-concat_same dep ds)

drop_added :
    (step dep : Str) (list : List Named) (t : Named)
    → NoRepeat (map (λ n. n.name) list)
    → find (λ n. n.name === step) list ≡ some t
    → includes t.depends_on dep ≡ false
    → map (without ((step, dep) ∷ [])) (map (replaced step (t.depends_on ++ dep ∷ [])) list) ≡ list
drop_added step dep [] t h e new = cc
drop_added step dep (n ∷ list) t (fresh, h) e new = elim (Bool-cases (n.name === step)) [
  | inl same ↦
      let found : n ≡ t = cc (rw same at e) in
      let longer = t.depends_on ++ dep ∷ [] in
      let absent : includes (map (λ m. m.name) list) step ≡ false =
        rw (← (===_iff n.name step).0 same) fresh in
      ap₂ (λ m l. m ∷ l)
        (rw same (
          without_self step dep (record n { depends_on = longer }) same
          ∙ ap (λ ds. record n { depends_on = ds })
              (filter-concat_same dep t.depends_on new
                ∙ ap (λ (m : Named). m.depends_on) (sym found))))
        (ap (map (without ((step, dep) ∷ []))) (replaced-absent step longer list absent)
          ∙ without-absent step dep list absent)
  | inr other ↦
      ap₂ (λ m l. m ∷ l) (rw other (without-other step dep n other))
        (drop_added step dep list t h (rw other at e) new)
]

-- With distinct step names, deleting an edge right after `connect` added it gives back the named
-- steps with their dependencies.
pub disconnect-connect :
    (steps : List Fields) (inferred : Inferred) (st st' : GraphState) (step dep : Str)
    (more : List Fields)
    → HasDistinctNames steps
    → connect steps inferred st step dep ≡ (st', some more)
    → (left : List Fields) × (disconnect more st' ((step, dep) ∷ [])
        ≡ (record st' { error = no_error }, some left))
      × (named left ≡ named steps)
disconnect-connect steps inferred st st' step dep more h e =
    let (t, found, made, new, _) = connect-some steps inferred st st' step dep more e in
    let longer = t.depends_on ++ dep ∷ [] in
    let more_named : named more ≡ map (replaced step longer) (named steps) =
      rw made (named-with_depends_on steps step longer) in
    let (left, answer, dropped) =
      disconnect_removes more st' ((step, dep) ∷ [])
        (rw (more_named, names-replaced step longer (named steps)) h) in
    (left, answer, dropped ∙ rw more_named (drop_added step dep (named steps) t h found new))
