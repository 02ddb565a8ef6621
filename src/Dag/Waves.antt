-- ===== src/Dag/Waves.antt =====
-- The loop of computeWaves: its end and the steps of each wave.
use mathlib.Core.List.Perm
use mathlib.Core.List.{append-nil}
use restitch_gateway.Prelude.{
  ℕ, zero, suc, ◌≤◌, ◌<◌, ◌≡◌, ◌≢◌, refl, ap, ◌⊎◌, inl, inr, Bool, true, false, not, some, List, [],
  ◌∷◌, ◌++◌, Perm, arith, Str, ◌===◌, ===_refl, ===_iff, Bool-cases, Option-cases, List-cases,
  length, filter, filter-perm, length-filter_le, flatten, includes, includes-filter, every,
}
use restitch_gateway.Dag.{StrMap, is_ready, next_wave, delete_all, waves_loop}

-- A step that is not ready has a dependency that remains.
pub every-false :
    (xs rem : List Str)
    → every (λ d. not (includes rem d)) xs ≡ false
    → (d : Str) × (includes xs d ≡ true) × (includes rem d ≡ true)
every-false [] rem h = cc
every-false (x ∷ xs) rem h = elim (Bool-cases (includes rem x)) [
  | inl waits ↦ (x, ground (arith, ===_refl x), waits)
  | inr done ↦ let (d, m, w) = every-false xs rem (ground arith) in (d, ground arith, w)
]

pub every-true :
    (xs rem : List Str) (d : Str)
    → every (λ x. not (includes rem x)) xs ≡ true
    → includes xs d ≡ true
    → includes rem d ≡ false
every-true [] rem d h m = cc
every-true (x ∷ xs) rem d h m = ground (arith, every-true xs rem d, ===_iff x d)

pub length-filter_lt :
    (p : Str → Bool) (xs : List Str) (a : Str)
    → includes xs a ≡ true
    → p a ≡ false
    → length (filter p xs) < length xs
length-filter_lt p [] a m h = cc
length-filter_lt p (x ∷ xs) a m h = elim (Bool-cases (x === a)) [
  | inl same ↦ let e : x ≡ a = (===_iff x a).0 same in ground (arith, length-filter_le p xs, ap p e)
  | inr other ↦ ground (arith, length-filter_lt p xs a)
]

-- Two tests that agree on the members keep the same members.
pub filter-eq :
    (p q : Str → Bool) (xs : List Str)
    → ((a : Str) → includes xs a ≡ true → p a ≡ q a)
    → filter p xs ≡ filter q xs
filter-eq p q [] h = refl
filter-eq p q (x ∷ xs) h =
    ground (arith, h x (ground (arith, ===_refl x)), filter-eq p q xs (λ a m. h a (ground arith)))

pub filter_of_none :
    (p : Str → Bool) (xs : List Str)
    → filter p xs ≡ []
    → (a : Str) → includes xs a ≡ true
    → p a ≡ false
filter_of_none p [] h a m = cc
filter_of_none p (x ∷ xs) h a m = elim (Bool-cases (x === a)) [
  | inl same ↦ let e : x ≡ a = (===_iff x a).0 same in ground (arith, ap p e)
  | inr other ↦ ground (arith, filter_of_none p xs (ground arith) a)
]

pub filter_nothing : (xs : List Str) → filter (λ x. false) xs ≡ []
filter_nothing [] = refl
filter_nothing (x ∷ xs) = filter_nothing xs

module _ (deps : StrMap) (rem : List Str) where
  -- The two ways in which a wave is formed.
  pub next_wave_cases :
      (next_wave deps rem ≡ filter (is_ready deps rem) rem) × (next_wave deps rem ≢ [])
      ⊎ (filter (is_ready deps rem) rem ≡ []) × (next_wave deps rem ≡ rem)
  unfolding next_wave
  next_wave_cases = elim (List-cases (filter (is_ready deps rem) rem)) [
    | inl idle ↦ inr (idle, rw idle)
    | inr (x, xs, e) ↦ inl (rw e, rw e (λ h. cc))
  ]

  pub next_wave-subset : (a : Str) → includes (next_wave deps rem) a ≡ true → includes rem a ≡ true
  next_wave-subset a m = elim next_wave_cases [
    | inl (e, _) ↦
        ground (arith, includes-filter (is_ready deps rem) rem a, ap (λ l. includes l a) e)
    | inr (_, e) ↦ ground (arith, ap (λ l. includes l a) e)
  ]

  -- A wave and what it leaves are together what there was.
  next_wave-perm : Perm (next_wave deps rem ++ delete_all (next_wave deps rem) rem) rem
  unfolding delete_all
  next_wave-perm = elim next_wave_cases [
    | inl (e, _) ↦ rw e (
        rw
          (filter-eq (λ x. not (includes (filter (is_ready deps rem) rem) x))
            (λ x. not (is_ready deps rem x)) rem
            (λ a m. ground (arith, includes-filter (is_ready deps rem) rem a)))
          (filter-perm (is_ready deps rem) rem))
    | inr (_, e) ↦ rw e (
        rw (filter-eq (λ x. not (includes rem x)) (λ x. false) rem (λ a m. ground arith))
          (rw (filter_nothing rem, append-nil) (Perm.refl rem)))
  ]

next_wave_shrinks :
    (deps : StrMap) (x : Str) (xs : List Str)
    → length (delete_all (next_wave deps (x ∷ xs)) (x ∷ xs)) < length (x ∷ xs)
unfolding delete_all
next_wave_shrinks deps x xs = elim (List-cases (next_wave deps (x ∷ xs))) [
  | inl empty ↦ elim (next_wave_cases deps (x ∷ xs)) [
    | inl (_, some_ready) ↦ absurd (some_ready empty)
    | inr (_, all) ↦ cc
  ]
  | inr (y, ys, e) ↦
      let taken : includes (next_wave deps (x ∷ xs)) y ≡ true = rw e (ground (arith, ===_refl y)) in
      length-filter_lt (λ z. not (includes (next_wave deps (x ∷ xs)) z)) (x ∷ xs) y
        (next_wave-subset deps (x ∷ xs) y taken) (rw taken)
]

pub waves_loop_total :
    (fuel : ℕ) (deps : StrMap) (rem : List Str)
    → length rem ≤ fuel
    → (ws : List (List Str)) × (waves_loop fuel deps rem ≡ some ws)
unfolding waves_loop
waves_loop_total zero deps [] h = ([], refl)
waves_loop_total (suc fuel) deps [] h = ([], refl)
waves_loop_total zero deps (x ∷ xs) h = absurd (omega arith)
waves_loop_total (suc fuel) deps (x ∷ xs) h =
    let (ws, e) =
      waves_loop_total fuel deps (delete_all (next_wave deps (x ∷ xs)) (x ∷ xs))
        (omega (arith, next_wave_shrinks deps x xs)) in
    (next_wave deps (x ∷ xs) ∷ ws, rw (e, waves_loop))

-- The first wave of a run, and the run on what it leaves.
pub waves_loop-cons :
    (fuel : ℕ) (deps : StrMap) (x : Str) (xs : List Str) (ws : List (List Str))
    → waves_loop (suc fuel) deps (x ∷ xs) ≡ some ws
    → (later : List (List Str)) × (waves_loop fuel deps
          (delete_all (next_wave deps (x ∷ xs)) (x ∷ xs))
        ≡ some later)
      × (ws ≡ next_wave deps (x ∷ xs) ∷ later)
unfolding waves_loop
waves_loop-cons fuel deps x xs ws e =
    elim (Option-cases (waves_loop fuel deps (delete_all (next_wave deps (x ∷ xs)) (x ∷ xs)))) [
      | inl out ↦ absurd (cc (rw (out, waves_loop) at e))
      | inr (later, rest) ↦ (later, rest, cc (rw (rest, waves_loop) at e))
    ]

pub waves_loop-perm :
    (fuel : ℕ) (deps : StrMap) (rem : List Str) (ws : List (List Str))
    → waves_loop fuel deps rem ≡ some ws
    → Perm (flatten ws) rem
unfolding waves_loop
waves_loop-perm zero deps [] ws e = let done : ws ≡ [] = cc in rw done (Perm.refl [])
waves_loop-perm (suc fuel) deps [] ws e = let done : ws ≡ [] = cc in rw done (Perm.refl [])
waves_loop-perm zero deps (x ∷ xs) ws e = cc
waves_loop-perm (suc fuel) deps (x ∷ xs) ws e =
    let (later, rest, whole) = waves_loop-cons fuel deps x xs ws e in
    rw whole (
      Perm.trans
        (Perm.append_left (next_wave deps (x ∷ xs)) (waves_loop-perm fuel deps _ later rest))
        (next_wave-perm deps (x ∷ xs)))
