-- ===== src/Prelude/Lists.antt =====
-- Lists measured and indexed by native numbers, filtered by Boolean tests, and sets of texts.
use Prim.Native.Nat.{ℕ, zero, suc, ◌+◌, ◌≤◌}
use mathlib.Core.Path.{◌≡◌, refl, ap}
use mathlib.Core.Logic.{inl, inr}
use mathlib.Core.Bool.{Bool, true, false, not, ◌&&◌, ◌||◌}
use mathlib.Core.List.{List, [], ◌∷◌, ◌++◌, map, Perm, perm_middle}
use mathlib.Core.List.Perm
use mathlib.Core.Option.{Option, none, some}
use native.Mathlib.Omega.{arith}
use package.restitch_gateway.Prelude.Tests.{Str, ◌===◌, ===_iff, if◌then◌else◌, Bool-cases}

module _ {ℓ} {A : Type ℓ} where
  abbrev pub length : List A → ℕ
  length [] = 0
  length (x ∷ xs) = suc (length xs)

  abbrev pub get_elem? : List A → ℕ → Option A
  get_elem? [] i = none
  get_elem? (x ∷ xs) zero = some x
  get_elem? (x ∷ xs) (suc i) = get_elem? xs i

  abbrev pub take : ℕ → List A → List A
  take zero xs = []
  take (suc n) [] = []
  take (suc n) (x ∷ xs) = x ∷ take n xs

  abbrev pub drop : ℕ → List A → List A
  drop zero xs = xs
  drop (suc n) [] = []
  drop (suc n) (x ∷ xs) = drop n xs

  -- `Array.filter` and `Array.every` by a Boolean test.
  abbrev pub filter : (A → Bool) → List A → List A
  filter p [] = []
  filter p (x ∷ xs) = if p x then x ∷ filter p xs else filter p xs

  abbrev pub every : (A → Bool) → List A → Bool
  every p [] = true
  every p (x ∷ xs) = p x && every p xs

  abbrev pub any : (A → Bool) → List A → Bool
  any p [] = false
  any p (x ∷ xs) = p x || any p xs

  abbrev pub find : (A → Bool) → List A → Option A
  find p [] = none
  find p (x ∷ xs) = if p x then some x else find p xs

  abbrev pub flatten : List (List A) → List A
  flatten [] = []
  flatten (xs ∷ xss) = xs ++ flatten xss

  pub length-append : (xs ys : List A) → length (xs ++ ys) ≡ length xs + length ys
  length-append [] ys = omega arith
  length-append (x ∷ xs) ys = omega (arith, length-append xs ys)

  pub length-filter_le : (p : A → Bool) (xs : List A) → length (filter p xs) ≤ length xs
  length-filter_le p [] = omega arith
  length-filter_le p (x ∷ xs) = ground (arith, length-filter_le p xs)

  -- A list is, up to order, what a test keeps and what it drops.
  pub filter-perm :
      (p : A → Bool) (xs : List A) → Perm (filter p xs ++ filter (λ x. not (p x)) xs) xs
  filter-perm p [] = Perm.refl []
  filter-perm p (x ∷ xs) = elim (Bool-cases (p x)) [
    | inl kept ↦ rw kept (Perm.cons x (filter-perm p xs))
    | inr dropped ↦
        rw dropped (Perm.trans (perm_middle (filter p xs) _) (Perm.cons x (filter-perm p xs)))
  ]

-- `Array.flatMap`.
abbrev pub flat_map {ℓ κ} : {A : Type ℓ} {B : Type κ} → (A → List B) → List A → List B
flat_map f [] = []
flat_map f (x ∷ xs) = f x ++ flat_map f xs

pub length-map {ℓ κ} :
    {A : Type ℓ} {B : Type κ} (f : A → B) (xs : List A) → length (map f xs) ≡ length xs
length-map f [] = refl
length-map f (x ∷ xs) = ap suc (length-map f xs)

-- `Array.includes` and `Set.has` on texts.
abbrev pub includes : List Str → Str → Bool
includes [] a = false
includes (x ∷ xs) a = x === a || includes xs a

-- A set of texts keeps the order in which its members came; a second copy adds nothing.
unfoldable pub set_add : List Str → Str → List Str
set_add xs a = if includes xs a then xs else xs ++ a ∷ []

abbrev pub set_delete : List Str → Str → List Str
set_delete xs a = filter (λ x. not (x === a)) xs

-- What all elements of a list have, as a tuple.
abbrev pub All {ℓ κ} : {A : Type ℓ} → (A → Type κ) → List A → Type κ
All P [] = Unit
All P (x ∷ xs) = P x × All P xs

pub includes-append :
    (xs ys : List Str) (a : Str) → includes (xs ++ ys) a ≡ (includes xs a || includes ys a)
includes-append [] ys a = refl
includes-append (x ∷ xs) ys a = ground (arith, includes-append xs ys a)

pub includes-filter :
    (p : Str → Bool) (xs : List Str) (a : Str) → includes (filter p xs) a ≡ (p a && includes xs a)
includes-filter p [] a = ground arith
includes-filter p (x ∷ xs) a = ground (arith, includes-filter p xs a, ===_iff x a)

pub includes-set_add :
    (xs : List Str) (b a : Str) → includes (set_add xs b) a ≡ (includes xs a || (b === a))
unfolding set_add
includes-set_add xs b a = ground (arith, includes-append xs (b ∷ []) a, ===_iff b a)
