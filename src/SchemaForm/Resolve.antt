-- ===== src/SchemaForm/Resolve.antt =====
-- The references that `resolve` of schema-form.tsx follows.
use restitch_gateway.Prelude.{
  ℕ, zero, suc, ◌≤◌, ◌≡◌, refl, some, arith, Str, inl, inr, Option-cases,
}
use restitch_gateway.SchemaForm.{
  Schema, flag, ref, shape, Defs, Resolved, anything, shaped, ref_name, lookup, resolve,
}

-- How many references a schema follows, given a rank of the names.
abbrev pub depth : (Str → ℕ) → Schema → ℕ
depth rank (ref s) = suc (rank (ref_name s))
depth rank _ = 0

-- The rank goes down along the references between definitions.
abbrev pub IsRanked : Defs → (Str → ℕ) → Type 0
IsRanked defs rank =
    (name : Str) (target : Schema) → lookup defs name ≡ some target → depth rank target ≤ rank name

resolve_more :
    (defs : Defs) (n m : ℕ) (s : Schema) (r : Resolved)
    → resolve n defs s ≡ some r
    → n ≤ m
    → resolve m defs s ≡ some r
unfolding resolve
resolve_more defs n m (flag b) r h le = h
resolve_more defs n m (shape x) r h le = h
resolve_more defs zero m (ref s) r h le = absurd (cc h)
resolve_more defs (suc n) zero (ref s) r h le = absurd (omega (arith, le))
resolve_more defs (suc n) (suc m) (ref s) r h le = elim (Option-cases (lookup defs (ref_name s))) [
  | inl e ↦ rw (resolve, e) (rw (resolve, e) at h)
  | inr (target, e) ↦
      rw (resolve, e) (resolve_more defs n m target r (rw (resolve, e) at h) (omega (arith, le)))
]

resolve-some :
    (defs : Defs) (rank : Str → ℕ) (fuel : ℕ) (schema : Schema)
    → IsRanked defs rank
    → depth rank schema ≤ fuel
    → (r : Resolved) × (resolve fuel defs schema ≡ some r)
unfolding resolve
resolve-some defs rank fuel (flag b) ranked h = (anything, refl)
resolve-some defs rank fuel (shape x) ranked h = (shaped x, refl)
resolve-some defs rank zero (ref s) ranked h = absurd (omega (arith, h))
resolve-some defs rank (suc n) (ref s) ranked h = elim (Option-cases (lookup defs (ref_name s))) [
  | inl e ↦ (anything, rw (resolve, e) refl)
  | inr (target, e) ↦
      let (r, found) =
        resolve-some defs rank n target ranked (omega (arith, h, ranked (ref_name s) target e)) in
      (r, rw (resolve, e) found)
]

-- When the names of the definitions have a rank that goes down along their references, `resolve`
-- returns once the fuel is not below the depth of the schema, and more fuel does not change what it
-- returns.
pub resolve_ends :
    (defs : Defs) (rank : Str → ℕ) (fuel : ℕ) (schema : Schema)
    → IsRanked defs rank
    → depth rank schema ≤ fuel
    → (r : Resolved) × (resolve (depth rank schema) defs schema ≡ some r)
      × (resolve fuel defs schema ≡ some r)
resolve_ends defs rank fuel schema ranked h =
    let (r, e) = resolve-some defs rank (depth rank schema) schema ranked (omega arith) in
    (r, e, resolve_more defs (depth rank schema) fuel schema r e h)
