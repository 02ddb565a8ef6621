-- ===== src/Dag/Relation.antt =====
-- What it means that one step depends on another, and on itself, in the map of dependencies.
use restitch_gateway.Prelude.{◌≡◌, ◌⊎◌, inl, inr, true, Str, includes}
use restitch_gateway.Dag.{StrMap, map_get}

-- `a` names `b` among its dependencies.
abbrev pub Needs : StrMap → Str → Str → Type 0
Needs deps a b = includes (map_get deps a) b ≡ true

pub data Reach (deps : StrMap) (a : Str) : Str → Type 0 where
  here : Reach deps a a
  next : {b c : Str} → Reach deps a b → Needs deps b c → Reach deps a c

-- No step waits for itself.
abbrev pub IsAcyclic : StrMap → Type 0
IsAcyclic deps = (a b : Str) → Needs deps a b → ¬ Reach deps b a

pub Reach-trans : {deps : StrMap} {a b c : Str} → Reach deps a b → Reach deps b c → Reach deps a c
Reach-trans p here = p
Reach-trans p (next q e) = next (Reach-trans p q) e

-- A graph with one more edge: every new walk is an old one or goes through that edge.
module _ {deps more : StrMap} {s d : Str}
    (grows : (a b : Str) → Needs more a b → Needs deps a b ⊎ (a ≡ s) × (b ≡ d)) where
  Reach-grows : {x y : Str} → Reach more x y → Reach deps x y ⊎ Reach deps x s × Reach deps d y
  Reach-grows here = inl here
  Reach-grows (next {b} {c} p e) = extend (Reach-grows p) (grows b c e)
    where
      extend :
          {x y z : Str}
          → Reach deps x y ⊎ Reach deps x s × Reach deps d y
          → Needs deps y z ⊎ (y ≡ s) × (z ≡ d)
          → Reach deps x z ⊎ Reach deps x s × Reach deps d z
      extend (inl old) (inl e) = inl (next old e)
      extend (inl old) (inr (ys, zd)) = inr (rw (← ys) old, rw zd here)
      extend (inr (to, from)) (inl e) = inr (to, next from e)
      extend (inr (to, from)) (inr (ys, zd)) = inr (to, rw zd here)

  pub IsAcyclic-grows : IsAcyclic deps → ¬ Reach deps d s → IsAcyclic more
  IsAcyclic-grows acyclic fresh a b e p = elim (grows a b e) [
    | inl old ↦ elim (Reach-grows p) [
      | inl back ↦ acyclic a b old back
      | inr (to, from) ↦ fresh (Reach-trans (next from old) to)
    ]
    | inr (from_s, to_d) ↦ elim (Reach-grows p) [
      | inl back ↦ fresh (rw (← from_s, ← to_d) back)
      | inr (to, from) ↦ fresh (rw (← to_d) to)
    ]
  ]
