-- ===== src/Dag/Order.antt =====
-- computeWaves as a whole: the order of the steps over the waves.

use restitch_gateway.Prelude.{
  ℕ, zero, suc, ◌≡◌, ◌≢◌, refl, ◌∙◌, ◌⊎◌, inl, inr, true, false, not, ◌&&◌, some, List, [], ◌∷◌,
  ◌++◌, Perm, arith, Str, ◌===◌, ===_refl, length, filter, length-filter_le, flatten, includes,
  includes-append, includes-filter, any,
}
use restitch_gateway.Dag.{
  DagStep, StrMap, map_get, step_names, depends_on_map, is_ready, next_wave, delete_all, waves_loop,
  compute_waves,
}
use restitch_gateway.Dag.Relation.{Needs, IsAcyclic}
use restitch_gateway.Dag.Waves.{
  every-false, every-true, next_wave_cases, waves_loop_total, waves_loop-perm, waves_loop-cons,
  filter_of_none, filter-eq, filter_nothing,
}
use restitch_gateway.Dag.Names.{NoRepeat, Needs-known, step_names-NoRepeat, includes-step_names}
use restitch_gateway.Dag.Descent.{descend}

-- Where a step of an ordinary wave stands: all its dependencies are in the waves before, and one
-- of them in the wave right before, if there is one.
pub record InPlace (deps : StrMap) (done prev : List Str) (s : Str) : Type 0 where
  pub behind : (d : Str) → Needs deps s d → includes done d ≡ true
  pub earliest : (prev ≡ []) ⊎ ((d : Str) × Needs deps s d × (includes prev d ≡ true))

-- Each step of the wave waits for a step of the same wave.
abbrev pub IsCaught : StrMap → List Str → Type 0
IsCaught deps w =
    (s : Str) → includes w s ≡ true → (d : Str) × Needs deps s d × (includes w d ≡ true)

abbrev pub IsPlaced : StrMap → List Str → List Str → List Str → Type 0
IsPlaced deps done prev w = (s : Str) → includes w s ≡ true → InPlace deps done prev s

-- Waves in order; only the last one may hold steps that wait for one another.
abbrev pub IsGrouped : StrMap → List Str → List Str → List (List Str) → Type 0
IsGrouped deps done prev [] = Unit
IsGrouped deps done prev (w ∷ ws) =
    (w ≢ [])
    × (IsPlaced deps done prev w × IsGrouped deps (w ++ done) w ws ⊎ IsCaught deps w × (ws ≡ []))

-- Waves in order, with no step left in a cycle.
abbrev pub IsLayered : StrMap → List Str → List Str → List (List Str) → Type 0
IsLayered deps done prev [] = Unit
IsLayered deps done prev (w ∷ ws) =
    (w ≢ []) × IsPlaced deps done prev w × IsLayered deps (w ++ done) w ws

module _ (deps : StrMap) where
  record Inv (done prev rem : List Str) : Type 0 where
    known : (a d : Str) → Needs deps a d → (includes done d ≡ true) ⊎ (includes rem d ≡ true)
    waited :
        (s : Str)
        → includes rem s ≡ true
        → (prev ≡ [])
          ⊎ ((d : Str) × Needs deps s d × ((includes prev d ≡ true) ⊎ (includes rem d ≡ true)))

  abbrev left : List Str → List Str
  left rem = delete_all (next_wave deps rem) rem

  includes-left :
      (rem : List Str) (a : Str)
      → includes (left rem) a ≡ (not (includes (next_wave deps rem) a) && includes rem a)
  unfolding delete_all
  includes-left rem a = includes-filter (λ x. not (includes (next_wave deps rem) x)) rem a

  module _ (done prev rem : List Str) (inv : Inv done prev rem)
      (formed : next_wave deps rem ≡ filter (is_ready deps rem) rem) where
    wave_iff : (s : Str) → includes (next_wave deps rem) s ≡ (is_ready deps rem s && includes rem s)
    wave_iff s = rw formed (includes-filter (is_ready deps rem) rem s)

    wave-IsPlaced : IsPlaced deps done prev (next_wave deps rem)
    unfolding is_ready
    wave-IsPlaced s m = record {
      behind =
          λ d e. ground (arith, inv.known s d e, wave_iff s, every-true (map_get deps s) rem d);
      earliest = elim (inv.waited s (ground (arith, wave_iff s))) [
        | inl first ↦ inl first
        | inr (d, e, inl before) ↦ inr (d, e, before)
        | inr (d, e, inr waits) ↦
            absurd (cc (every-true (map_get deps s) rem d (ground (arith, wave_iff s)) e, waits))
      ];
    }

    Inv-next : Inv (next_wave deps rem ++ done) (next_wave deps rem) (left rem)
    unfolding is_ready
    Inv-next = record {
      known = λ a d e. ground (
        arith,
        inv.known a d e,
        includes-append (next_wave deps rem) done d,
        includes-left rem d,
      );
      waited = λ s m.
          let (d, e, waits) =
            every-false (map_get deps s) rem (ground (arith, includes-left rem s, wave_iff s)) in
          inr (d, e, ground (arith, includes-left rem d));
    }

  caught : (rem : List Str) → filter (is_ready deps rem) rem ≡ [] → IsCaught deps rem
  unfolding is_ready
  caught rem idle s m =
      every-false (map_get deps s) rem (filter_of_none (is_ready deps rem) rem idle s m)

  waves_loop-nil : (fuel : ℕ) → waves_loop fuel deps [] ≡ some []
  unfolding waves_loop
  waves_loop-nil zero = refl
  waves_loop-nil (suc fuel) = refl

  nothing_left :
      (fuel : ℕ) (rem : List Str) (later : List (List Str))
      → next_wave deps rem ≡ rem
      → waves_loop fuel deps (left rem) ≡ some later
      → later ≡ []
  unfolding delete_all
  nothing_left fuel rem later all rest =
      let empty : left rem ≡ [] = rw all (
        filter-eq (λ x. not (includes rem x)) (λ x. false) rem (λ a m. ground arith)
        ∙ filter_nothing rem) in
      cc (rw empty at rest, waves_loop-nil fuel)

  waves_loop-IsGrouped :
      (fuel : ℕ) (done prev rem : List Str) (ws : List (List Str))
      → Inv done prev rem
      → waves_loop fuel deps rem ≡ some ws
      → IsGrouped deps done prev ws
  unfolding waves_loop
  waves_loop-IsGrouped zero done prev [] ws inv e = let empty : ws ≡ [] = cc in rw empty tt
  waves_loop-IsGrouped (suc fuel) done prev [] ws inv e = let empty : ws ≡ [] = cc in rw empty tt
  waves_loop-IsGrouped zero done prev (x ∷ xs) ws inv e = cc
  waves_loop-IsGrouped (suc fuel) done prev (x ∷ xs) ws inv e =
      let (later, rest, whole) = waves_loop-cons fuel deps x xs ws e in
      elim (next_wave_cases deps (x ∷ xs)) [
        | inl (formed, filled) ↦ rw whole (
          filled,
          inl (
            wave-IsPlaced done prev (x ∷ xs) inv formed,
            waves_loop-IsGrouped fuel (next_wave deps (x ∷ xs) ++ done) (next_wave deps (x ∷ xs))
                (left (x ∷ xs)) later (Inv-next done prev (x ∷ xs) inv formed) rest,
          ),
        )
        | inr (idle, all) ↦ rw whole (
          rw all (λ h. cc),
          inr (rw all (caught (x ∷ xs) idle), nothing_left fuel (x ∷ xs) later all rest),
        )
      ]

  -- In an acyclic graph no wave is caught.
  IsCaught-impossible : IsAcyclic deps → (w : List Str) → w ≢ [] → ¬ IsCaught deps w
  unfolding is_ready
  IsCaught-impossible acyclic [] filled h = filled refl
  IsCaught-impossible acyclic (x ∷ xs) filled h =
      let (z, m, free) =
        descend deps acyclic (x ∷ xs) (length (x ∷ xs)) [] x (ground (arith, ===_refl x))
          (λ v e. cc) refl (length-filter_le (λ z. not (includes [] z)) (x ∷ xs)) in
      let (d, e, waits) = h z m in cc (every-true (map_get deps z) (x ∷ xs) d free e, waits)

  IsGrouped→IsLayered :
      IsAcyclic deps
      → (done prev : List Str) (ws : List (List Str)) → IsGrouped deps done prev ws
      → IsLayered deps done prev ws
  IsGrouped→IsLayered acyclic done prev [] h = tt
  IsGrouped→IsLayered acyclic done prev (w ∷ ws) (filled, inl (placed, h)) =
      (filled, placed, IsGrouped→IsLayered acyclic (w ++ done) w ws h)
  IsGrouped→IsLayered acyclic done prev (w ∷ ws) (filled, inr (stuck, last)) =
      absurd (IsCaught-impossible acyclic w filled stuck)

-- computeWaves ends for every list of steps. Its waves hold each name of a step, and nothing else,
-- exactly once. Every wave but the last holds steps whose dependencies are all in the waves before
-- it, one of them in the wave right before (the first wave has no such condition); the last wave is
-- of the same kind, or each of its steps depends on a step of that wave.
pub compute_waves_groups :
    (steps : List DagStep)
    → (ws : List (List Str)) × (compute_waves steps ≡ some ws)
      × Perm (flatten ws) (step_names steps)
      × NoRepeat (step_names steps)
      × ((a : Str) → includes (step_names steps) a ≡ any (λ s. s.name === a) steps)
      × IsGrouped (depends_on_map steps) [] [] ws
unfolding compute_waves
compute_waves_groups steps =
    let names = step_names steps in
    let deps = depends_on_map steps in
    let (ws, e) = waves_loop_total (length names) deps names (omega arith) in
    (
      ws,
      e,
      waves_loop-perm (length names) deps names ws e,
      step_names-NoRepeat steps,
      includes-step_names steps,
      waves_loop-IsGrouped deps (length names) [] [] names ws
          (record { known = λ a d n. inr (Needs-known steps a d n); waited = λ s m. inl refl }) e,
    )

-- When no step waits for itself, every wave holds steps whose dependencies are all in the waves
-- before it, and each step of a later wave has a dependency in the wave right before its own: it
-- runs in the first wave after all its dependencies.
pub compute_waves_layers :
    (steps : List DagStep) (ws : List (List Str))
    → IsAcyclic (depends_on_map steps)
    → compute_waves steps ≡ some ws
    → IsLayered (depends_on_map steps) [] [] ws
unfolding compute_waves
compute_waves_layers steps ws acyclic e =
    IsGrouped→IsLayered (depends_on_map steps) acyclic [] [] ws (
      waves_loop-IsGrouped (depends_on_map steps) (length (step_names steps)) [] []
        (step_names steps) ws
        (record { known = λ a d n. inr (Needs-known steps a d n); waited = λ s m. inl refl }) e)
