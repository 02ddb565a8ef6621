-- ===== src/StepGraph/Names.antt =====
-- The named steps of step-graph.tsx after an edit of depends_on.
use mathlib.Core.Option
use mathlib.Core.List.{map-append}
use restitch_gateway.Prelude.{
  sym, ◌≡◌, ◌≢◌, refl, inl, inr, List, [], ◌∷◌, map, arith, Str, ◌===◌, ===_refl, ===_iff,
  if◌then◌else◌, Bool-cases, find,
}
use restitch_gateway.Values.{Value, str, arr, Fields, get_field, items_of}
use restitch_gateway.Values.Laws.{get-set, get-delete, strings_of-items_of}
use restitch_gateway.StepGraph.{
  Named, named_step, named, texts, is_text, put_depends_on, with_depends_on, name_key,
  depends_on_key,
}

-- Every other field of the object is as it was.
pub put_depends_on-other :
    (s : Fields) (next : List Str) (k : Str)
    → k ≢ depends_on_key
    → get_field (put_depends_on s next) k ≡ get_field s k
unfolding put_depends_on
put_depends_on-other s [] k h =
    ground (arith, get-delete s depends_on_key k, ===_iff depends_on_key k)
put_depends_on-other s (d ∷ ds) k h =
    ground (arith, get-set s depends_on_key k (arr (items_of (d ∷ ds))), ===_iff depends_on_key k)

pub put_depends_on-texts :
    (s : Fields) (next : List Str) → texts (get_field (put_depends_on s next) depends_on_key) ≡ next
unfolding put_depends_on texts
put_depends_on-texts s [] = rw (get-delete s depends_on_key depends_on_key, ===_refl depends_on_key)
put_depends_on-texts s (d ∷ ds) =
    rw (get-set s depends_on_key depends_on_key (arr (items_of (d ∷ ds))), ===_refl depends_on_key)
      (strings_of-items_of (d ∷ ds))

name_key-ne : name_key ≢ depends_on_key
name_key-ne h = cc h

-- A step with another list.
abbrev pub replaced : Str → List Str → Named → Named
replaced step next n = if n.name === step then record n { depends_on = next } else n

named_step-replaced :
    (step : Str) (next : List Str) (s : Fields) (v : Value)
    → get_field s name_key ≡ v
    → (let s' = if is_text v step then put_depends_on s next else s in
        named_step (get_field s' name_key) (get_field s' depends_on_key))
      ≡ map (replaced step next) (named_step v (get_field s depends_on_key))
unfolding named_step is_text
named_step-replaced step next s (str n) e = elim (Bool-cases (n === step)) [
  | inl same ↦
      rw (same, put_depends_on-other s next name_key name_key-ne, e, named_step)
        (rw (put_depends_on-texts s next)
          (elim (Bool-cases (n === [])) [ inl blank ↦ rw blank | inr given ↦ rw (given, same) ]))
  | inr other ↦
      rw (other, e, named_step)
        (elim (Bool-cases (n === [])) [ inl blank ↦ rw blank | inr given ↦ rw (given, other) ])
]
named_step-replaced step next s _ e = rw e

-- After an edit the named steps are as they were, but for the list of the steps of that name.
pub named-with_depends_on :
    (steps : List Fields) (step : Str) (next : List Str)
    → named (with_depends_on steps step next) ≡ map (replaced step next) (named steps)
unfolding named with_depends_on
named-with_depends_on [] step next = refl
named-with_depends_on (s ∷ steps) step next =
    rw
      (
        named_step-replaced step next s (get_field s name_key) refl,
        named-with_depends_on steps step next,
      )
      (sym (
        map-append (replaced step next)
          (named_step (get_field s name_key) (get_field s depends_on_key)) (named steps)))

pub find-replaced :
    (a step : Str) (next : List Str) (list : List Named)
    → find (λ n. n.name === a) (map (replaced step next) list)
      ≡ Option.map (replaced step next) (find (λ n. n.name === a) list)
find-replaced a step next [] = refl
find-replaced a step next (n ∷ list) = ground (arith, find-replaced a step next list)

-- An edit writes no field but depends_on, in no step.
pub with_depends_on-other :
    (steps : List Fields) (step : Str) (next : List Str) (k : Str)
    → k ≢ depends_on_key
    → map (λ s. get_field s k) (with_depends_on steps step next) ≡ map (λ s. get_field s k) steps
unfolding with_depends_on
with_depends_on-other [] step next k h = refl
with_depends_on-other (s ∷ steps) step next k h =
    rw (with_depends_on-other steps step next k h)
      (elim (Bool-cases (is_text (get_field s name_key) step)) [
        | inl same ↦ rw (same, put_depends_on-other s next k h)
        | inr other ↦ rw other
      ])
