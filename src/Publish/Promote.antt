-- ===== src/Publish/Promote.antt =====
-- What PromoteDialog of VersionsPage.tsx sends.
use restitch_gateway.Prelude.{
  ℕ, ◌≡◌, refl, subst, Bool, true, false, not, ◌⊎◌, inl, inr, Option, none, some, List, [], ◌∷◌,
  arith, Str, ◌===◌, ===_iff, Bool-cases, includes, includes-filter, ◌==◌,
}
use restitch_gateway.Editor.{idle, is_pending}
use restitch_gateway.Publish.{
  Version, send_promote, PromoteState, PromoteEvent, choose_from, choose_version, submit_promote,
  promoted, promote_refused, close, others, source, chosen, can_promote, promote_step,
}

unfoldable pub is_choice : PromoteEvent → Bool
is_choice (choose_from name) = true
is_choice _ = false

module _ (env : Str) (environments : List Str) (versions : Str → List Version) where
  -- The dialog from its first opening on; the list of environments offers the others only.
  pub data Reachable : PromoteState → Type 0 where
    opened : Reachable (record { from = []; version = 0; diff = none; promote = idle })
    choosing :
        (st : PromoteState) (name : Str)
        → Reachable st
        → includes (others env environments versions) name ≡ true
        → Reachable (promote_step env environments versions st (choose_from name)).0
    other :
        (st : PromoteState) (e : PromoteEvent)
        → Reachable st
        → is_choice e ≡ false
        → Reachable (promote_step env environments versions st e).0

  abbrev IsOffered : PromoteState → Type 0
  IsOffered st =
      ((st.from === []) ≡ true) ⊎ (includes (others env environments versions) st.from ≡ true)

  step-IsOffered :
      (st : PromoteState) (e : PromoteEvent)
      → IsOffered st
      → is_choice e ≡ false
      → IsOffered (promote_step env environments versions st e).0
  unfolding promote_step is_choice
  step-IsOffered st (choose_from name) h c = absurd (cc c)
  step-IsOffered st (choose_version n) h c = h
  step-IsOffered st submit_promote h c =
      elim (Bool-cases
        (can_promote env environments versions st st.diff (others env environments versions))) [
          | inl e ↦ rw e h
          | inr e ↦ rw e h
        ]
  step-IsOffered st (promoted text) h c = h
  step-IsOffered st (promote_refused e) h c = h
  step-IsOffered st close h c = h

  reachable-IsOffered : (st : PromoteState) → Reachable st → IsOffered st
  unfolding promote_step ◌===◌
  reachable-IsOffered st opened = inl refl
  reachable-IsOffered st (choosing s name r h) = inr h
  reachable-IsOffered st (other s e r c) = step-IsOffered s e (reachable-IsOffered s r) c

  source_offered :
      (st : PromoteState) (o : Str) (os : List Str)
      → others env environments versions ≡ o ∷ os
      → IsOffered st
      → includes (others env environments versions) (source env environments versions st) ≡ true
  unfolding source
  source_offered st o os e h = elim (Bool-cases (st.from === [])) [
    | inl empty ↦ rw (empty, e) (ground (arith, ===_iff o o))
    | inr full ↦ elim h [ inl empty ↦ absurd (cc (empty, full)) | inr offered ↦ rw full offered ]
  ]

  can_promote_only :
      (st : PromoteState) (diff : Option Str) (es : List Str)
      → can_promote env environments versions st diff es ≡ true
      → (o : Str) × (os : List Str) × (es ≡ o ∷ os)
        × ((chosen env environments versions st == 0) ≡ false)
        × (is_pending st.promote ≡ false)
  unfolding can_promote
  can_promote_only st (some diff) es h = absurd (cc h)
  can_promote_only st none [] h = absurd (cc h)
  can_promote_only st none (o ∷ os) h = (o, os, refl, ground (arith, h), ground (arith, h))

  -- A promotion names another environment of the list, never the one whose draft is replaced, and a
  -- version; and none is sent while another is under way.
  pub promote_step-send_promote :
      (st : PromoteState) (name : Str) (version : ℕ)
      → Reachable st
      → (promote_step env environments versions st submit_promote).1
        ≡ send_promote name version ∷ []
      → (includes environments name ≡ true)
        × ((name === env) ≡ false)
        × ((version == 0) ≡ false)
        × (is_pending st.promote ≡ false)
  unfolding promote_step others
  promote_step-send_promote st name version r sent =
      let es = others env environments versions in
      elim (Bool-cases (can_promote env environments versions st st.diff es)) [
        | inr e ↦ absurd (cc (rw (promote_step, e) at sent))
        | inl e ↦
            let went : send_promote (source env environments versions st)
                    (chosen env environments versions st)
                  ∷ []
                ≡ send_promote name version ∷ [] =
              rw (promote_step, e) at sent in
            let (o, os, is_es, number, free) = can_promote_only st st.diff es e in
            let named : source env environments versions st ≡ name = cc went in
            let numbered : chosen env environments versions st ≡ version = cc went in
            let inside : includes es name ≡ true =
              subst (λ s. includes es s ≡ true) named
                (source_offered st o os is_es (reachable-IsOffered st r)) in
            let split = includes-filter (λ x. not (x === env)) environments name in
            (
              ground (arith, inside, split),
              ground (arith, inside, split),
              subst (λ n. (n == 0) ≡ false) numbered number,
              free,
            )
      ]
