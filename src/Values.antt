-- ===== src/Values.antt =====
-- The values of a resource body (studio/src/features/resources): what JSON and YAML parse to, and
-- JavaScript objects as lists of their own fields in order.
pub mod Laws
use restitch_gateway.Prelude.{Bool, true, false, List, [], ◌∷◌, Str, codes, ◌===◌, if◌then◌else◌}

-- A number is kept as the text that `String(n)` gives.
mutual
  pub data Value : Type 0 where
    undefined : Value
    null : Value
    bool : Bool → Value
    num : Str → Value
    str : Str → Value
    arr : Items → Value
    obj : Fields → Value

  pub data Items : Type 0 where
    nil : Items
    cons : Value → Items → Items

  pub data Fields : Type 0 where
    end : Fields
    field : Str → Value → Fields → Fields

-- `o[k]`.
unfoldable pub get_field : Fields → Str → Value
get_field end k = undefined
get_field (field j v o) k = if j === k then v else get_field o k

-- `{ ...o, [k]: v }`: a known key keeps its place.
unfoldable pub set_field : Fields → Str → Value → Fields
set_field end k v = field k v end
set_field (field j w o) k v = if j === k then field j v o else field j w (set_field o k v)

-- `delete o[k]`.
unfoldable pub delete_field : Fields → Str → Fields
delete_field end k = end
delete_field (field j w o) k =
    let rest = delete_field o k in if j === k then rest else field j w rest

-- `Object.keys(o)`.
unfoldable pub keys : Fields → List Str
keys end = []
keys (field j w o) = j ∷ keys o

unfoldable pub items_of : List Str → Items
items_of [] = nil
items_of (x ∷ xs) = cons (str x) (items_of xs)

abbrev pub or_text : Value → List Str → List Str
or_text (str s) rest = s ∷ rest
or_text _ rest = rest

-- The texts among the items.
unfoldable pub strings_of : Items → List Str
strings_of nil = []
strings_of (cons v vs) = or_text v (strings_of vs)
