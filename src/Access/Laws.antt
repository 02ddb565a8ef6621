-- ===== src/Access/Laws.antt =====
-- The order of the roles in roles.ts.
use restitch_gateway.Prelude.{
  ℕ, ◌≤◌, ◌≡◌, refl, ap, sym, ◌∙◌, ===→eq, ◌↔◌, inl, inr, true, false, Option, none, some, arith,
  Str, ◌===◌, leb, Bool-cases, includes,
}
use restitch_gateway.Access.{
  Role, viewer, editor, owner, role_text, roles, is_role, role_index, can,
}

abbrev pub rank : Role → ℕ
rank viewer = 0
rank editor = 1
rank owner = 2

role_index-text : (r : Role) → role_index roles (role_text r) ≡ rank r
unfolding role_index ◌===◌
role_index-text viewer = refl
role_index-text editor = refl
role_index-text owner = refl

role_text-role : (r : Role) → is_role (some (role_text r)) ≡ true
unfolding is_role ◌===◌
role_text-role viewer = refl
role_text-role editor = refl
role_text-role owner = refl

role_of : (s : Str) → includes roles s ≡ true → (r : Role) × (s ≡ role_text r)
role_of s m = elim (Bool-cases (role_text viewer === s)) [
  | inl v ↦ (viewer, sym (===→eq (role_text viewer) s v))
  | inr v ↦ elim (Bool-cases (role_text editor === s)) [
    | inl e ↦ (editor, sym (===→eq (role_text editor) s e))
    | inr e ↦ elim (Bool-cases (role_text owner === s)) [
      | inl o ↦ (owner, sym (===→eq (role_text owner) s o))
      | inr o ↦ absurd (cc (rw (v, e, o) at m))
    ]
  ]
]

can-role : (r min : Role) → can (some (role_text r)) min ≡ leb (rank min) (rank r)
unfolding can is_role
can-role r min = rw (role_text-role r, role_index-text min, role_index-text r)

can_unknown : (s : Str) (min : Role) → includes roles s ≡ false → can (some s) min ≡ false
unfolding can is_role
can_unknown s min h = rw h

can-none : (min : Role) → can none min ≡ false
unfolding can is_role
can-none min = refl

-- A user may do what a role allows exactly when the user's role is one of viewer, editor and owner
-- and stands at or above it in that order. A missing or unknown role may do nothing.
pub can_iff :
    (role : Option Str) (min : Role)
    → (can role min ≡ true) ↔ ((r : Role) × (role ≡ some (role_text r)) × (rank min ≤ rank r))
can_iff none min = (λ e. absurd (cc (can-none min)), λ (r, e, _). cc)
can_iff (some s) min = (
  λ e. elim (Bool-cases (includes roles s)) [
    | inl known ↦
        let (r, is_r) = role_of s known in
        (r, ap some is_r, ground (arith, can-role r min, rw is_r at e))
    | inr unknown ↦ absurd (cc (can_unknown s min unknown))
  ],
  λ (r, e, le). rw e (can-role r min ∙ ground arith),
)
