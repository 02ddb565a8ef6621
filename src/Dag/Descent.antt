-- ===== src/Dag/Descent.antt =====
-- Steps of a set that wait for no step of the set.
use restitch_gateway.Prelude.{
  ℕ, zero, suc, ◌≤◌, ◌<◌, ◌≡◌, ap, inl, inr, Bool, true, false, not, List, [], ◌∷◌, arith, Str,
  ◌===◌, ===_refl, ===_iff, Bool-cases, length, filter, includes,
}
use restitch_gateway.Dag.{StrMap, map_get, is_ready}
use restitch_gateway.Dag.Relation.{Reach, here, next, IsAcyclic}
use restitch_gateway.Dag.Waves.{every-false}

length-filter_pos :
    (p : Str → Bool) (xs : List Str) (a : Str)
    → includes xs a ≡ true
    → p a ≡ true
    → 0 < length (filter p xs)
length-filter_pos p [] a m h = cc
length-filter_pos p (x ∷ xs) a m h = elim (Bool-cases (x === a)) [
  | inl same ↦ let e : x ≡ a = (===_iff x a).0 same in ground (arith, ap p e)
  | inr other ↦ ground (arith, length-filter_pos p xs a)
]

length-filter_le2 :
    (p q : Str → Bool) (xs : List Str)
    → ((z : Str) → q z ≡ true → p z ≡ true)
    → length (filter q xs) ≤ length (filter p xs)
length-filter_le2 p q [] h = omega arith
length-filter_le2 p q (x ∷ xs) h = ground (arith, h x, length-filter_le2 p q xs h)

-- A stricter test that drops a member more keeps fewer.
length-filter_lt2 :
    (p q : Str → Bool) (xs : List Str) (a : Str)
    → includes xs a ≡ true
    → ((z : Str) → q z ≡ true → p z ≡ true)
    → p a ≡ true
    → q a ≡ false
    → length (filter q xs) < length (filter p xs)
length-filter_lt2 p q [] a m h pa qa = cc
length-filter_lt2 p q (x ∷ xs) a m h pa qa = elim (Bool-cases (x === a)) [
  | inl same ↦
      let e : x ≡ a = (===_iff x a).0 same in
      ground (arith, ap p e, ap q e, length-filter_le2 p q xs h)
  | inr other ↦ ground (arith, h x, length-filter_lt2 p q xs a (ground arith) h pa qa)
]

-- A nonempty set of steps of an acyclic graph has one that waits for none of them.
module _ (deps : StrMap) (acyclic : IsAcyclic deps) (rem : List Str) where
  abbrev fresh : List Str → ℕ
  fresh visited = length (filter (λ z. not (includes visited z)) rem)

  pub descend :
      (fuel : ℕ) (visited : List Str) (x : Str)
      → includes rem x ≡ true
      → ((v : Str) → includes visited v ≡ true → Reach deps v x)
      → includes visited x ≡ false
      → fresh visited ≤ fuel
      → (z : Str) × (includes rem z ≡ true) × (is_ready deps rem z ≡ true)
  unfolding is_ready
  descend zero visited x m walks unseen h =
      absurd
        (omega (arith, length-filter_pos (λ z. not (includes visited z)) rem x m (rw unseen), h))
  descend (suc fuel) visited x m walks unseen h = elim (Bool-cases (is_ready deps rem x)) [
    | inl free ↦ (x, m, free)
    | inr waits ↦
        let (y, needs, y_rem) = every-false (map_get deps x) rem waits in
        descend fuel (x ∷ visited) y y_rem
          (λ v m'. elim (Bool-cases (x === v)) [
            | inl same ↦ rw (← (===_iff x v).0 same) (next here needs)
            | inr other ↦ next (walks v (ground arith)) needs
          ])
          (elim (Bool-cases (includes (x ∷ visited) y)) [
            | inr new ↦ new
            | inl old ↦ absurd (
                acyclic x y needs (elim (Bool-cases (x === y)) [
                  | inl same ↦ rw ((===_iff x y).0 same) here
                  | inr other ↦ walks y (ground arith)
                ]))
          ])
          (omega (
            arith,
            length-filter_lt2 (λ z. not (includes visited z)) (λ z. not (includes (x ∷ visited) z))
                rem x m (λ z. ground arith) (rw unseen) (ground (arith, ===_refl x)),
          ))
  ]
