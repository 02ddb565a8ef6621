-- ===== src/SchemaForm/Paths.antt =====
-- Paths into a resource body, and the edits of schema-form.tsx.
use restitch_gateway.Prelude.{
  ℕ, zero, suc, ◌≡◌, refl, ◌∙◌, ap, subst, Bool, true, false, Option, none, some, List, [], ◌∷◌,
  arith, Str, ◌===◌, ===_iff, ===→eq, ◌==◌, if◌then◌else◌, Bool-cases, Option-cases, inl, inr,
}
use mathlib.Core.Option.{some-injective}
use restitch_gateway.Values.{
  Value, undefined, null, bool, num, str, arr, obj, Items, nil, cons, Fields, get_field,
}
use restitch_gateway.Values.Laws.{get-set, get-delete}
use restitch_gateway.SchemaForm.{Schema, Defs, control, is_empty_value, set_key}
use restitch_gateway.SchemaForm.Change.{
  Edit, in_key, in_item, find_entry, fields_of, list_of, get_item, replace_at, change, put_key,
  get_of, item_fields, put_item, open_entries, list_entries,
}

pub data Step : Type 0 where
  key : Str → Step
  item : ℕ → Step

abbrev or_undefined : Option Value → Value
or_undefined none = undefined
or_undefined (some v) = v

-- The value at a path; `undefined` where there is none.
unfoldable pub read : List Step → Value → Value
read [] v = v
read (key k ∷ p) v = read p (get_of (fields_of v) k)
read (item i ∷ p) v = read p (or_undefined (get_item (list_of v) i))

-- The path of the field that an edit is about.
unfoldable pub path_of : Edit → List Step
path_of (in_key k e) = key k ∷ path_of e
path_of (in_item i k e) = item i ∷ key k ∷ path_of e
path_of _ = []

-- The paths part before either ends.
unfoldable pub diverges : List Step → List Step → Bool
diverges (key j ∷ p) (key k ∷ q) = if j === k then diverges p q else true
diverges (item i ∷ p) (item j ∷ q) = if i == j then diverges p q else true
diverges _ _ = false

get-set_key :
    (o : Fields) (k j : Str) (v : Value)
    → get_field (set_key o k v) j
      ≡ (if k === j then (if is_empty_value v then undefined else v) else get_field o j)
unfolding set_key
get-set_key o k j v = ground (arith, get-set o k j v, get-delete o k j, ===_iff k j)

-- Nothing can be read inside an empty value.
read_empty :
    (s : Step) (q : List Step) (v : Value)
    → is_empty_value v ≡ true
    → read (s ∷ q) undefined ≡ read (s ∷ q) v
unfolding read is_empty_value fields_of list_of get_item get_field
read_empty (key k) q undefined h = refl
read_empty (key k) q (str []) h = refl
read_empty (key k) q (bool false) h = refl
read_empty (key k) q (arr nil) h = refl
read_empty (item i) q undefined h = refl
read_empty (item i) q (str []) h = refl
read_empty (item i) q (bool false) h = refl
read_empty (item i) q (arr nil) h = refl
read_empty (key k) q null h = absurd (cc h)
read_empty (key k) q (bool true) h = absurd (cc h)
read_empty (key k) q (num n) h = absurd (cc h)
read_empty (key k) q (str (c ∷ t)) h = absurd (cc h)
read_empty (key k) q (arr (cons x xs)) h = absurd (cc h)
read_empty (key k) q (obj o) h = absurd (cc h)
read_empty (item i) q null h = absurd (cc h)
read_empty (item i) q (bool true) h = absurd (cc h)
read_empty (item i) q (num n) h = absurd (cc h)
read_empty (item i) q (str (c ∷ t)) h = absurd (cc h)
read_empty (item i) q (arr (cons x xs)) h = absurd (cc h)
read_empty (item i) q (obj o) h = absurd (cc h)

diverges_nil : (p : List Step) → diverges p [] ≡ false
unfolding diverges
diverges_nil [] = refl
diverges_nil (key k ∷ p) = refl
diverges_nil (item i ∷ p) = refl

-- Reading inside a value that set_key stores.
read_stored :
    (p q : List Step) (v : Value)
    → diverges p q ≡ true
    → read q (if is_empty_value v then undefined else v) ≡ read q v
read_stored p [] v d = absurd (cc (diverges_nil p))
read_stored p (s ∷ q) v d = elim (Bool-cases (is_empty_value v)) [
  | inl e ↦ rw e (read_empty s q v e)
  | inr e ↦ rw e refl
]

get-replace_at :
    (vs : Items) (i j : ℕ) (v w : Value)
    → get_item vs i ≡ some v
    → get_item (replace_at vs i w) j ≡ (if i == j then some w else get_item vs j)
unfolding get_item replace_at
get-replace_at nil i j v w h = cc
get-replace_at (cons x vs) zero zero v w h = refl
get-replace_at (cons x vs) zero (suc j) v w h = ground arith
get-replace_at (cons x vs) (suc i) zero v w h = ground arith
get-replace_at (cons x vs) (suc i) (suc j) v w h = ground (arith, get-replace_at vs i j v w h)

-- Both values agree at every path that parts from `p`.
abbrev pub AgreeOff : List Step → Value → Value → Type 0
AgreeOff p v w = (q : List Step) → diverges p q ≡ true → read q w ≡ read q v

pub put_key_frame :
    (v : Value) (o : Fields) (k : Str) (w : Value) (p : List Step)
    → fields_of v ≡ some o
    → AgreeOff p (get_field o k) w
    → AgreeOff (key k ∷ p) v (obj (set_key o k w))
unfolding read diverges fields_of
put_key_frame v o k w p e agree [] d = cc
put_key_frame v o k w p e agree (item i ∷ q) d = cc
put_key_frame v o k w p e agree (key j ∷ q) d = elim (Bool-cases (k === j)) [
  | inl same ↦
      let d' : diverges p q ≡ true = rw same at d in
      rw (e, get-set_key o k j w, same)
        (read_stored p q w d' ∙ agree q d' ∙ ap (λ i. read q (get_field o i)) (===→eq k j same))
  | inr other ↦ rw (e, get-set_key o k j w, other) refl
]

put_item_frame :
    (v : Value) (vs : Items) (i : ℕ) (x w : Value) (p : List Step)
    → list_of v ≡ vs
    → get_item vs i ≡ some x
    → AgreeOff p x w
    → AgreeOff (item i ∷ p) v (arr (replace_at vs i w))
unfolding read diverges list_of
put_item_frame v vs i x w p e at_i agree [] d = cc
put_item_frame v vs i x w p e at_i agree (key k ∷ q) d = cc
put_item_frame v vs i x w p e at_i agree (item j ∷ q) d = elim (Bool-cases (i == j)) [
  | inl same ↦
      let d' : diverges p q ≡ true = rw same at d in
      let i_j : i ≡ j = ground (arith, same) in
      let at_j : get_item vs j ≡ some x = subst (λ n. get_item vs n ≡ some x) i_j at_i in
      rw (e, get-replace_at vs i j x w at_i, same, at_j) (agree q d')
  | inr other ↦ rw (e, get-replace_at vs i j x w at_i, other) refl
]

pub put_key-some :
    (o : Option Fields) (k : Str) (w : Option Value) (v' : Value)
    → put_key o k w ≡ some v'
    → (fs : Fields) × (x : Value) × (o ≡ some fs) × (w ≡ some x) × (obj (set_key fs k x) ≡ v')
put_key-some none k w v' h = absurd (cc h)
put_key-some (some fs) k none v' h = absurd (cc h)
put_key-some (some fs) k (some x) v' h = (fs, x, refl, refl, some-injective _ v' h)

put_item-some :
    (vs : Items) (i : ℕ) (w : Option Value) (v' : Value)
    → put_item vs i w ≡ some v'
    → (x : Value) × (w ≡ some x) × (arr (replace_at vs i x) ≡ v')
put_item-some vs i none v' h = absurd (cc h)
put_item-some vs i (some x) v' h = (x, refl, some-injective _ v' h)

item_fields-some :
    (v : Option Value) (o : Fields)
    → item_fields v ≡ some o
    → (x : Value) × (v ≡ some x) × (fields_of x ≡ some o)
item_fields-some none o h = absurd (cc h)
item_fields-some (some x) o h = (x, refl, h)

-- An edit in the form changes the value at the path of its field, and at no path that parts from it.
pub change-AgreeOff :
    (number : Str → Str) (fuel : ℕ) (defs : Defs) (e : Edit) (schema : Schema) (v v' : Value)
    → change number fuel defs e schema v ≡ some v'
    → AgreeOff (path_of e) v v'
unfolding change path_of diverges
change-AgreeOff number fuel defs (in_key k e) schema v v' h =
    elim (Option-cases (find_entry (open_entries (control fuel defs schema v)) k)) [
      | inl hidden ↦ absurd (cc (rw (change, hidden) at h))
      | inr (s, shown) ↦
          let (o, w, is_o, inner, e') =
            put_key-some (fields_of v) k (change number fuel defs e s (get_of (fields_of v) k)) v'
              (rw (change, shown) at h) in
          let inner' : change number fuel defs e s (get_field o k) ≡ some w = rw is_o at inner in
          subst (AgreeOff (key k ∷ path_of e) v) e' (
            put_key_frame v o k w (path_of e) is_o
              (change-AgreeOff number fuel defs e s (get_field o k) w inner'))
    ]
change-AgreeOff number fuel defs (in_item i k e) schema v v' h =
    elim (Option-cases (find_entry (list_entries (control fuel defs schema v)) k)) [
      | inl hidden ↦ absurd (cc (rw (change, hidden) at h))
      | inr (s, shown) ↦
          let o = item_fields (get_item (list_of v) i) in
          let (y, is_y, e') =
            put_item-some (list_of v) i (put_key o k (change number fuel defs e s (get_of o k))) v'
              (rw (change, shown) at h) in
          let (fs, w, is_fs, inner, e'') =
            put_key-some o k (change number fuel defs e s (get_of o k)) y is_y in
          let (x, at_i, fields_x) = item_fields-some (get_item (list_of v) i) fs is_fs in
          let inner' : change number fuel defs e s (get_field fs k) ≡ some w = rw is_fs at inner in
          subst (AgreeOff (item i ∷ key k ∷ path_of e) v) e' (
            put_item_frame v (list_of v) i x y (key k ∷ path_of e) refl at_i (
              subst (AgreeOff (key k ∷ path_of e) x) e'' (
                put_key_frame x fs k w (path_of e) fields_x
                  (change-AgreeOff number fuel defs e s (get_field fs k) w inner'))))
    ]
change-AgreeOff number fuel defs _ schema v v' h = λ q d. absurd (cc d)
