-- ===== src/Lint/Joined.antt =====
-- The step names that useTemplateLint joins for its key and splits again for the request.
use restitch_gateway.Prelude.{
  ◌≡◌, ◌≢◌, refl, ap, ◌∙◌, true, false, inl, inr, some, List, [], ◌∷◌, ◌++◌, Str, ◌==◌, ◌===◌,
  ===_iff, Bool-cases, All, codes,
}
use restitch_gateway.Text.{split, push_front, contains}
use restitch_gateway.Lint.{join_names, names_sent, lint_key, lint_question, template_lint}

-- A name without the unit 0, which separates the names in the key.
abbrev pub IsPlain : Str → Type 0
IsPlain s = All (λ c. (c == 0) ≡ false) s

split_plain : (s : Str) → IsPlain s → split 0 s ≡ s ∷ []
unfolding split push_front
split_plain [] h = refl
split_plain (c ∷ s) (h, hs) = rw (h, split_plain s hs)

split_joined : (s rest : Str) → IsPlain s → split 0 (s ++ (0 ∷ rest)) ≡ s ∷ split 0 rest
unfolding split push_front
split_joined [] rest h = refl
split_joined (c ∷ s) rest (h, hs) = rw (h, split_joined s rest hs)

split-join_names :
    (x : Str) (xs : List Str) → All IsPlain (x ∷ xs) → split 0 (join_names (x ∷ xs)) ≡ x ∷ xs
unfolding join_names
split-join_names x [] (h, hs) = split_plain x h
split-join_names x (y ∷ xs) (h, hs) =
    split_joined x (join_names (y ∷ xs)) h ∙ ap (λ r. x ∷ r) (split-join_names y xs hs)

joined_empty : (x : Str) (xs : List Str) → join_names (x ∷ xs) ≡ [] → x ∷ xs ≡ [] ∷ []
unfolding join_names
joined_empty x [] h = rw h
joined_empty [] (y ∷ xs) h = cc
joined_empty (c ∷ x) (y ∷ xs) h = cc

no_names : names_sent (join_names []) ≡ []
unfolding names_sent join_names ◌===◌
no_names = refl

names_sent-join_names :
    (xs : List Str) → All IsPlain xs → xs ≢ ([] ∷ []) → names_sent (join_names xs) ≡ xs
unfolding names_sent
names_sent-join_names [] plain ne = no_names
names_sent-join_names (x ∷ xs) plain ne = elim (Bool-cases (join_names (x ∷ xs) === [])) [
  | inl e ↦ absurd (ne (joined_empty x xs ((===_iff _ _).0 e)))
  | inr e ↦ rw e (split-join_names x xs plain)
]

-- What is asked about a text with `{{` in a composition: the text is sent unchanged with exactly the
-- step names of the composition, in order, if no name holds the unit 0 and the names are not the one
-- empty name.
pub lint_question-lint_key :
    (value : Str) (steps : List Str)
    → contains value (codes "{{") ≡ true
    → All IsPlain steps
    → steps ≢ ([] ∷ [])
    → template_lint.question (lint_key value (some steps))
      ≡ some (record { template = value; steps = steps })
unfolding template_lint lint_question lint_key
lint_question-lint_key value steps braces plain ne =
    rw (braces, names_sent-join_names steps plain ne)
