-- ===== src/Prelude/Holds.antt =====
-- A property of all elements of a list, through the list functions.
use Prim.Native.Nat.{ℕ, zero, suc}
use mathlib.Core.Path.{◌≡◌}
use mathlib.Core.Logic.{inl, inr}
use mathlib.Core.Bool.{Bool, true}
use mathlib.Core.List.{List, [], ◌∷◌, ◌++◌, map, Mem, mem-cons_self, mem-cons_of_mem}
use package.restitch_gateway.Prelude.Tests.{Bool-cases}
use package.restitch_gateway.Prelude.Lists.{All, filter, take, flat_map, flatten}

module _ {ℓ κ} {A : Type ℓ} (P : A → Type κ) where
  pub All-append : (xs ys : List A) → All P xs → All P ys → All P (xs ++ ys)
  All-append [] ys hx hy = hy
  All-append (x ∷ xs) ys (h, hx) hy = (h, All-append xs ys hx hy)

  pub All-always : ((x : A) → P x) → (xs : List A) → All P xs
  All-always h [] = tt
  All-always h (x ∷ xs) = (h x, All-always h xs)

  pub All-filter : (p : A → Bool) (xs : List A) → All P xs → All P (filter p xs)
  All-filter p [] hs = tt
  All-filter p (x ∷ xs) (h, hs) = elim (Bool-cases (p x)) [
    | inl e ↦ rw e (h, All-filter p xs hs)
    | inr e ↦ rw e (All-filter p xs hs)
  ]

  -- What follows from the test holds for all that the test keeps.
  pub All-kept : (p : A → Bool) → ((x : A) → p x ≡ true → P x) → (xs : List A) → All P (filter p xs)
  All-kept p h [] = tt
  All-kept p h (x ∷ xs) = elim (Bool-cases (p x)) [
    | inl e ↦ rw e (h x e, All-kept p h xs)
    | inr e ↦ rw e (All-kept p h xs)
  ]

  pub All-take : (n : ℕ) (xs : List A) → All P xs → All P (take n xs)
  All-take zero xs hs = tt
  All-take (suc n) [] hs = tt
  All-take (suc n) (x ∷ xs) (h, hs) = (h, All-take n xs hs)

  pub All-imp {ι} : (Q : A → Type ι) → ((x : A) → P x → Q x) → (xs : List A) → All P xs → All Q xs
  All-imp Q f [] hs = tt
  All-imp Q f (x ∷ xs) (h, hs) = (f x h, All-imp Q f xs hs)

  pub All-flatten : (xss : List (List A)) → All (All P) xss → All P (flatten xss)
  All-flatten [] hs = tt
  All-flatten (xs ∷ xss) (h, hs) = All-append xs (flatten xss) h (All-flatten xss hs)

module _ {ℓ κ ι} {A : Type ℓ} {B : Type κ} (P : B → Type ι) where
  pub All-map : (f : A → B) (xs : List A) → All (λ x. P (f x)) xs → All P (map f xs)
  All-map f [] hs = tt
  All-map f (x ∷ xs) (h, hs) = (h, All-map f xs hs)

  pub All-flat_map :
      (f : A → List B) (xs : List A) → All (λ x. All P (f x)) xs → All P (flat_map f xs)
  All-flat_map f [] hs = tt
  All-flat_map f (x ∷ xs) (h, hs) = All-append P (f x) (flat_map f xs) h (All-flat_map f xs hs)

-- What holds of the elements and what the test adds, for those that the test keeps.
pub All-filter_imp {ℓ κ ι} :
    {A : Type ℓ} (P : A → Type κ) (Q : A → Type ι) (p : A → Bool)
    → ((x : A) → P x → p x ≡ true → Q x)
    → (xs : List A) → All P xs
    → All Q (filter p xs)
All-filter_imp P Q p f [] hs = tt
All-filter_imp P Q p f (x ∷ xs) (h, hs) = elim (Bool-cases (p x)) [
  | inl e ↦ rw e (f x h e, All-filter_imp P Q p f xs hs)
  | inr e ↦ rw e (All-filter_imp P Q p f xs hs)
]

pub All-zip {ℓ κ ι} :
    {A : Type ℓ} (P : A → Type κ) (Q : A → Type ι) (xs : List A)
    → All P xs
    → All Q xs
    → All (λ x. P x × Q x) xs
All-zip P Q [] hp hq = tt
All-zip P Q (x ∷ xs) (p, hp) (q, hq) = ((p, q), All-zip P Q xs hp hq)

pub All-append_back {ℓ κ} :
    {A : Type ℓ} (P : A → Type κ) (xs ys : List A) → All P (xs ++ ys) → All P xs × All P ys
All-append_back P [] ys h = (tt, h)
All-append_back P (x ∷ xs) ys (h, hs) = let (hx, hy) = All-append_back P xs ys hs in ((h, hx), hy)

pub All-map_back {ℓ κ ι} :
    {A : Type ℓ} {B : Type κ} (P : B → Type ι) (f : A → B) (xs : List A)
    → All P (map f xs)
    → All (λ x. P (f x)) xs
All-map_back P f [] h = tt
All-map_back P f (x ∷ xs) (h, hs) = (h, All-map_back P f xs hs)

-- Each element of a list is a member of it.
pub All-member {ℓ} : {A : Type ℓ} (xs : List A) → All (λ x. Mem x xs) xs
All-member [] = tt
All-member (x ∷ xs) = (
  mem-cons_self,
  All-imp (λ y. Mem y xs) (λ y. Mem y (x ∷ xs)) (λ y m. mem-cons_of_mem x m) xs (All-member xs),
)
