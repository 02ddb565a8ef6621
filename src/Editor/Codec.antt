-- ===== src/Editor/Codec.antt =====
-- A text format for objects that reads back what it wrote: it stands for the YAML library in runs of the
-- editor. A text is its codes plus one and a zero at the end.
use restitch_gateway.Prelude.{
  ℕ, zero, suc, ◌+◌, ◌≤◌, ◌≡◌, refl, ap, subst, ◌∙◌, true, false, Option, none, some, [], ◌∷◌,
  arith, Str, codes, ◌===◌,
}
use mathlib.Core.Option
use restitch_gateway.Values.{
  Value, undefined, null, bool, num, str, arr, obj, Items, nil, cons, Fields, end, field,
}
use restitch_gateway.Editor.{ParsedYaml, parsed, thrown}
use restitch_gateway.Editor.Yaml.{IsYamlLibrary}

unfoldable pub put_text : Str → Str → Str
put_text [] rest = 0 ∷ rest
put_text (c ∷ s) rest = suc c ∷ put_text s rest

unfoldable mutual
  pub put_value : Value → Str → Str
  put_value undefined rest = 0 ∷ rest
  put_value null rest = 1 ∷ rest
  put_value (bool true) rest = 2 ∷ rest
  put_value (bool false) rest = 3 ∷ rest
  put_value (num n) rest = 4 ∷ put_text n rest
  put_value (str s) rest = 5 ∷ put_text s rest
  put_value (arr vs) rest = 6 ∷ put_items vs rest
  put_value (obj o) rest = 7 ∷ put_fields o rest

  pub put_items : Items → Str → Str
  put_items nil rest = 0 ∷ rest
  put_items (cons v vs) rest = 1 ∷ put_value v (put_items vs rest)

  pub put_fields : Fields → Str → Str
  put_fields end rest = 0 ∷ rest
  put_fields (field k v o) rest = 1 ∷ put_text k (put_value v (put_fields o rest))

unfoldable mutual
  pub size_value : Value → ℕ
  size_value (arr vs) = suc (size_items vs)
  size_value (obj o) = suc (size_fields o)
  size_value _ = 1

  pub size_items : Items → ℕ
  size_items nil = 1
  size_items (cons v vs) = suc (size_value v + size_items vs)

  pub size_fields : Fields → ℕ
  size_fields end = 1
  size_fields (field k v o) = suc (size_value v + size_fields o)

unfoldable pub take_text : Str → Str × Str
take_text [] = ([], [])
take_text (zero ∷ s) = ([], s)
take_text (suc c ∷ s) = let (t, rest) = take_text s in (c ∷ t, rest)

take-put_text : (s rest : Str) → take_text (put_text s rest) ≡ (s, rest)
unfolding take_text put_text
take-put_text [] rest = refl
take-put_text (c ∷ s) rest = rw (take_text, take-put_text s rest) refl

abbrev pub to_items : Option (Value × Str) → (Str → Option (Items × Str)) → Option (Items × Str)
to_items none more = none
to_items (some (v, s)) more = elim (more s) [
  | none ↦ none
  | some (vs, rest) ↦ some (cons v vs, rest)
]

abbrev pub to_fields :
    Str → Option (Value × Str) → (Str → Option (Fields × Str)) → Option (Fields × Str)
to_fields k none more = none
to_fields k (some (v, s)) more = elim (more s) [
  | none ↦ none
  | some (o, rest) ↦ some (field k v o, rest)
]

unfoldable mutual
  pub take_value : ℕ → Str → Option (Value × Str)
  take_value zero s = none
  take_value (suc n) (zero ∷ s) = some (undefined, s)
  take_value (suc n) (suc zero ∷ s) = some (null, s)
  take_value (suc n) (suc (suc zero) ∷ s) = some (bool true, s)
  take_value (suc n) (suc (suc (suc zero)) ∷ s) = some (bool false, s)
  take_value (suc n) (suc (suc (suc (suc zero))) ∷ s) =
      let (t, rest) = take_text s in some (num t, rest)
  take_value (suc n) (suc (suc (suc (suc (suc zero)))) ∷ s) =
      let (t, rest) = take_text s in some (str t, rest)
  take_value (suc n) (suc (suc (suc (suc (suc (suc zero))))) ∷ s) =
      Option.map (λ (vs, rest). (arr vs, rest)) (take_items n s)
  take_value (suc n) (suc (suc (suc (suc (suc (suc (suc zero)))))) ∷ s) =
      Option.map (λ (o, rest). (obj o, rest)) (take_fields n s)
  take_value (suc n) _ = none

  pub take_items : ℕ → Str → Option (Items × Str)
  take_items zero s = none
  take_items (suc n) (zero ∷ s) = some (nil, s)
  take_items (suc n) (suc zero ∷ s) = to_items (take_value n s) (take_items n)
  take_items (suc n) _ = none

  pub take_fields : ℕ → Str → Option (Fields × Str)
  take_fields zero s = none
  take_fields (suc n) (zero ∷ s) = some (end, s)
  take_fields (suc n) (suc zero ∷ s) =
      let (k, s') = take_text s in to_fields k (take_value n s') (take_fields n)
  take_fields (suc n) _ = none

mutual
  unfolding put_value size_value take_value

  take-put_value :
      (n : ℕ) (v : Value) (rest : Str)
      → size_value v ≤ n
      → take_value n (put_value v rest) ≡ some (v, rest)
  take-put_value zero undefined rest h = absurd (omega (arith, h))
  take-put_value zero null rest h = absurd (omega (arith, h))
  take-put_value zero (bool b) rest h = absurd (omega (arith, h))
  take-put_value zero (num t) rest h = absurd (omega (arith, h))
  take-put_value zero (str t) rest h = absurd (omega (arith, h))
  take-put_value zero (arr vs) rest h = absurd (omega (arith, h))
  take-put_value zero (obj o) rest h = absurd (omega (arith, h))
  take-put_value (suc n) undefined rest h = refl
  take-put_value (suc n) null rest h = refl
  take-put_value (suc n) (bool true) rest h = refl
  take-put_value (suc n) (bool false) rest h = refl
  take-put_value (suc n) (num t) rest h = ap (λ (t, r). some (num t, r)) (take-put_text t rest)
  take-put_value (suc n) (str t) rest h = ap (λ (t, r). some (str t, r)) (take-put_text t rest)
  take-put_value (suc n) (arr vs) rest h =
      ap (Option.map (λ (vs, r). (arr vs, r))) (take-put_items n vs rest (omega (arith, h)))
  take-put_value (suc n) (obj o) rest h =
      ap (Option.map (λ (o, r). (obj o, r))) (take-put_fields n o rest (omega (arith, h)))

  take-put_items :
      (n : ℕ) (vs : Items) (rest : Str)
      → size_items vs ≤ n
      → take_items n (put_items vs rest) ≡ some (vs, rest)
  take-put_items zero nil rest h = absurd (omega (arith, h))
  take-put_items zero (cons v vs) rest h = absurd (omega (arith, h))
  take-put_items (suc n) nil rest h = refl
  take-put_items (suc n) (cons v vs) rest h =
      ap (λ x. to_items x (take_items n))
        (take-put_value n v (put_items vs rest) (omega (arith, h)))
      ∙ ap (λ x. elim x [ none ↦ none | some (ws, r) ↦ some (cons v ws, r) ])
          (take-put_items n vs rest (omega (arith, h)))

  take-put_fields :
      (n : ℕ) (o : Fields) (rest : Str)
      → size_fields o ≤ n
      → take_fields n (put_fields o rest) ≡ some (o, rest)
  take-put_fields zero end rest h = absurd (omega (arith, h))
  take-put_fields zero (field k v o) rest h = absurd (omega (arith, h))
  take-put_fields (suc n) end rest h = refl
  take-put_fields (suc n) (field k v o) rest h =
      ap (λ (k, s). to_fields k (take_value n s) (take_fields n))
        (take-put_text k (put_value v (put_fields o rest)))
      ∙ ap (λ x. to_fields k x (take_fields n))
          (take-put_value n v (put_fields o rest) (omega (arith, h)))
      ∙ ap (λ x. elim x [ none ↦ none | some (p, r) ↦ some (field k v p, r) ])
          (take-put_fields n o rest (omega (arith, h)))

unfoldable pub write : Fields → Str
write o = size_fields o ∷ put_fields o []

abbrev pub object_read : Option (Fields × Str) → ParsedYaml
object_read none = thrown (codes "Not valid.")
object_read (some (o, rest)) = parsed (obj o)

unfoldable pub parse_text : Str → ParsedYaml
parse_text [] = thrown (codes "Not valid.")
parse_text (n ∷ s) = object_read (take_fields n s)

object_read-explains :
    (x : Option (Fields × Str)) (message : Str)
    → object_read x ≡ thrown message
    → (message === []) ≡ false
unfolding ◌===◌
object_read-explains none message h =
    let e : codes "Not valid." ≡ message = cc h in subst (λ m. (m === []) ≡ false) e refl
object_read-explains (some (o, rest)) message h = absurd (cc h)

pub write-IsYamlLibrary : IsYamlLibrary write parse_text
unfolding write parse_text
write-IsYamlLibrary = record {
  reads_back = λ o. ap object_read (take-put_fields (size_fields o) o [] (omega arith));
  explains = explains;
}
  where
    explains : (text message : Str) → parse_text text ≡ thrown message → (message === []) ≡ false
    explains [] message h = object_read-explains none message h
    explains (n ∷ s) message h = object_read-explains (take_fields n s) message h
