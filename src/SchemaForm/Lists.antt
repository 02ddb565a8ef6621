-- ===== src/SchemaForm/Lists.antt =====
-- The list fields of a form: comma lists and string maps.
use restitch_gateway.Prelude.{
  ℕ, ◌≡◌, ◌≢◌, refl, sym, ap, ◌∙◌, false, not, ◌||◌, some, List, [], ◌∷◌, ◌++◌, map, arith, Str,
  codes, ◌===◌, ◌==◌, if◌then◌else◌, Bool-cases, inl, inr, includes, All, filter, any, ==_iff,
}
use mathlib.Core.Option.{some-injective}
use mathlib.Core.List.{append_assoc}
use restitch_gateway.Text.{is_space, trim, trim_start, split, push_front}
use restitch_gateway.Values.{
  Value, undefined, str, obj, Fields, end, field, get_field, set_field, delete_field, keys,
}
use restitch_gateway.Values.Laws.{get-set, get-delete}
use restitch_gateway.SchemaForm.Change.{
  parts, joined, is_blank, change_map, remove_entry, add_entry, is_in, get_of, fields_of,
}

-- A part of a comma list: not empty, without a comma, and without spaces at its ends.
pub record IsPart (s : Str) : Type 0 where
  pub full : is_blank s ≡ false
  pub no_comma : any (λ c. c == b',') s ≡ false
  pub trimmed : trim s ≡ s

split_none : (sep : ℕ) (s : Str) → any (λ c. c == sep) s ≡ false → split sep s ≡ s ∷ []
unfolding split push_front
split_none sep [] h = refl
split_none sep (c ∷ s) h = elim (Bool-cases (c == sep)) [
  | inl e ↦ absurd (cc (rw e at h))
  | inr e ↦ rw (e, split_none sep s (rw e at h)) refl
]

split-append :
    (sep : ℕ) (s t : Str)
    → any (λ c. c == sep) s ≡ false
    → split sep (s ++ sep ∷ t) ≡ s ∷ split sep t
unfolding split push_front
split-append sep [] t h = ground (arith, ==_iff sep sep)
split-append sep (c ∷ s) t h = elim (Bool-cases (c == sep)) [
  | inl e ↦ absurd (cc (rw e at h))
  | inr e ↦ rw (e, split-append sep s t (rw e at h)) refl
]

split_space :
    (s y : Str) (l : List Str) → split b',' s ≡ y ∷ l → split b',' (b' ' ∷ s) ≡ (b' ' ∷ y) ∷ l
unfolding split push_front
split_space s y l e = rw (split, e) refl

split-joined :
    (x : Str) (xs : List Str)
    → IsPart x
    → All IsPart xs
    → split b',' (joined (x ∷ xs)) ≡ x ∷ map (λ y. b' ' ∷ y) xs
unfolding joined
split-joined x [] p ps = split_none b',' x p.no_comma
split-joined x (y ∷ ys) p (q, qs) =
    ap (split b',') (append_assoc x (codes ", ") (joined (y ∷ ys)))
    ∙ split-append b',' x (b' ' ∷ joined (y ∷ ys)) p.no_comma
    ∙ ap (λ l. x ∷ l)
        (split_space (joined (y ∷ ys)) y (map (λ z. b' ' ∷ z) ys) (split-joined y ys q qs))

trim_space : (s : Str) → trim (b' ' ∷ s) ≡ trim s
unfolding trim trim_start is_space
trim_space s = refl

trim_parts :
    (xs : List Str)
    → All IsPart xs
    → filter (λ p. not (is_blank p)) (map trim (map (λ y. b' ' ∷ y) xs)) ≡ xs
trim_parts [] ps = refl
trim_parts (x ∷ xs) (p, ps) =
    rw (trim_space x, p.trimmed, p.full) (ap (λ l. x ∷ l) (trim_parts xs ps))

parts_nil : parts (joined []) ≡ []
unfolding parts joined split trim trim_start ◌===◌
parts_nil = refl

-- The text that a comma list shows for texts without commas and without spaces around them parses
-- back to the same texts.
pub parts-joined : (xs : List Str) → All IsPart xs → parts (joined xs) ≡ xs
unfolding parts
parts-joined [] ps = parts_nil
parts-joined (x ∷ xs) (p, ps) =
    rw (split-joined x xs p ps, p.trimmed, p.full) (ap (λ l. x ∷ l) (trim_parts xs ps))

keys-set_field :
    (o : Fields) (k : Str) (v : Value)
    → includes (keys o) k ≡ false
    → keys (set_field o k v) ≡ keys o ++ k ∷ []
unfolding keys set_field
keys-set_field end k v h = refl
keys-set_field (field j w o) k v h = elim (Bool-cases (j === k)) [
  | inl e ↦ absurd (cc (rw e at h))
  | inr e ↦ rw e (ap (λ l. j ∷ l) (keys-set_field o k v (rw e at h)))
]

-- A name can be added to a string map when it is not blank and not yet there. It comes last, without
-- the spaces around it and with an empty text; the other entries stay as they are.
pub change_map_adds :
    (o : Fields) (draft : Str) (v' : Value)
    → change_map o (add_entry draft) ≡ some v'
    → (o' : Fields) × (v' ≡ obj o')
      × (keys o' ≡ keys o ++ trim draft ∷ [])
      × (is_blank (trim draft) ≡ false)
      × (includes (keys o) (trim draft) ≡ false)
      × ((j : Str) → get_field o' j ≡ (if trim draft === j then str [] else get_field o j))
unfolding change_map is_in
change_map_adds o draft v' h = elim (Bool-cases (is_blank (trim draft) || is_in (trim draft) o)) [
  | inl refused ↦ absurd (cc (rw (change_map, refused) at h))
  | inr accepted ↦
      let not_blank : is_blank (trim draft) ≡ false = ground (arith, accepted) in
      let not_there : includes (keys o) (trim draft) ≡ false = ground (arith, accepted) in
      let done : some (obj (set_field o (trim draft) (str []))) ≡ some v' =
        rw (change_map, accepted) at h in
      (
        set_field o (trim draft) (str []),
        sym (some-injective _ v' done),
        keys-set_field o (trim draft) (str []) not_there,
        not_blank,
        not_there,
        λ j. get-set o (trim draft) j (str []),
      )
]

-- Removing an entry of a string map leaves the other entries, and no empty map: when the last entry
-- goes, the whole field goes.
pub change_map_removes :
    (o : Fields) (k : Str)
    → (v' : Value) × (change_map o (remove_entry k) ≡ some v')
      × (v' ≢ obj end)
      × ((j : Str) → get_of (fields_of v') j ≡ (if k === j then undefined else get_field o j))
unfolding change_map fields_of
change_map_removes o k = left (delete_field o k) refl
  where
    left :
        (rest : Fields)
        → delete_field o k ≡ rest
        → (v' : Value) × (change_map o (remove_entry k) ≡ some v')
          × (v' ≢ obj end)
          × ((j : Str) → get_of (fields_of v') j ≡ (if k === j then undefined else get_field o j))
    left end e = (
      undefined,
      rw (change_map, e) refl,
      λ c. absurd (cc c),
      λ j. ap (λ r. get_field r j) (sym e) ∙ get-delete o k j,
    )
    left (field i w r) e = (
      obj (field i w r),
      rw (change_map, e) refl,
      λ c. absurd (cc c),
      λ j. ap (λ r. get_field r j) (sym e) ∙ get-delete o k j,
    )
