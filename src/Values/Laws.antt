-- ===== src/Values/Laws.antt =====
-- Reading a field after a write or a delete.
use restitch_gateway.Prelude.{
  ◌≡◌, refl, ap, List, [], ◌∷◌, arith, Str, ◌===◌, ===_iff, if◌then◌else◌,
}
use restitch_gateway.Values.{
  Value, undefined, Fields, end, field, get_field, set_field, delete_field, items_of, strings_of,
}

pub get-set :
    (o : Fields) (k j : Str) (v : Value)
    → get_field (set_field o k v) j ≡ (if k === j then v else get_field o j)
unfolding get_field set_field
get-set end k j v = refl
get-set (field i w o) k j v = ground (arith, ===_iff i k, ===_iff i j, ===_iff k j, get-set o k j v)

pub get-delete :
    (o : Fields) (k j : Str)
    → get_field (delete_field o k) j ≡ (if k === j then undefined else get_field o j)
unfolding get_field delete_field
get-delete end k j = ground arith
get-delete (field i w o) k j =
    ground (arith, ===_iff i k, ===_iff i j, ===_iff k j, get-delete o k j)

pub strings_of-items_of : (xs : List Str) → strings_of (items_of xs) ≡ xs
unfolding strings_of items_of
strings_of-items_of [] = refl
strings_of-items_of (x ∷ xs) = ap (λ l. x ∷ l) (strings_of-items_of xs)
