-- ===== src/Formats/Lines.antt =====
-- The lines of a diff (diff.ts), and the words of a duration (charts.ts).
use restitch_gateway.Prelude.{
  ℕ, ◌+◌, ◌*◌, ◌/◌, ◌%◌, ◌≤◌, ◌<◌, ◌≡◌, refl, sym, ap, ◌∙◌, ◌⊎◌, ◌↔◌, inl, inr, some, List, [], ◌∷◌,
  ◌++◌, map, arith, Str, ◌===◌, ===→eq, ◌==◌, Bool-cases, List-cases, All,
}
use mathlib.Core.List.{append_assoc}
use restitch_gateway.Text.{split, push_front}
use restitch_gateway.Formats.{
  classify_diff_line, pop_empty, diff_line, diff_lines, minutes, round_thousandths, format_ms,
}

-- `lines.join("\n")`.
unfoldable pub join_lines : List Str → Str
join_lines [] = []
join_lines (x ∷ []) = x
join_lines (x ∷ y ∷ xs) = x ++ 10 ∷ join_lines (y ∷ xs)

join-push_front : (c : ℕ) (xs : List Str) → join_lines (push_front c xs) ≡ c ∷ join_lines xs
unfolding join_lines push_front
join-push_front c [] = refl
join-push_front c (x ∷ []) = refl
join-push_front c (x ∷ y ∷ xs) = refl

split_some : (s : Str) → (x : Str) × (xs : List Str) × (split 10 s ≡ x ∷ xs)
unfolding split push_front
split_some [] = ([], [], refl)
split_some (c ∷ s) =
    let (x, xs, e) = split_some s in
    elim (Bool-cases (c == 10)) [
      | inl newline ↦ ([], split 10 s, rw (split, newline) refl)
      | inr other ↦ (c ∷ x, xs, rw (split, other, e) refl)
    ]

join_newline :
    (y : Str) (ls : List Str) (x : Str) (xs : List Str)
    → ls ≡ x ∷ xs
    → join_lines (y ∷ ls) ≡ y ++ 10 ∷ join_lines ls
unfolding join_lines
join_newline y ls x xs e = rw e refl

join-split : (s : Str) → join_lines (split 10 s) ≡ s
unfolding split join_lines
join-split [] = refl
join-split (c ∷ s) = elim (Bool-cases (c == 10)) [
  | inl newline ↦
      let (x, xs, e) = split_some s in
      let ten : 10 ≡ c = ground (arith, newline) in
      rw newline (
        join_newline [] (split 10 s) x xs e ∙ ap (λ l. 10 ∷ l) (join-split s) ∙ ap (λ d. d ∷ s) ten)
  | inr other ↦ rw other (join-push_front c (split 10 s) ∙ ap (λ l. c ∷ l) (join-split s))
]

pop_empty-none : (x : Str) (xs : List Str) → pop_empty (x ∷ xs) ≡ [] → join_lines (x ∷ xs) ≡ []
unfolding pop_empty join_lines
pop_empty-none x [] h = elim (Bool-cases (x === [])) [
  | inl e ↦ ===→eq x [] e
  | inr e ↦ absurd (cc (rw (pop_empty, e) at h))
]
pop_empty-none x (y ∷ ys) h = absurd (cc h)

join-pop_empty :
    (xs : List Str)
    → (join_lines (pop_empty xs) ≡ join_lines xs)
      ⊎ (join_lines (pop_empty xs) ++ 10 ∷ [] ≡ join_lines xs)
unfolding pop_empty join_lines
join-pop_empty [] = inl refl
join-pop_empty (x ∷ []) = elim (Bool-cases (x === [])) [
  | inl e ↦ inl (rw e (sym (===→eq x [] e)))
  | inr e ↦ inl (rw e refl)
]
join-pop_empty (x ∷ y ∷ xs) = elim (List-cases (pop_empty (y ∷ xs))) [
  | inl e ↦ inr (rw e (ap (λ l. x ++ 10 ∷ l) (sym (pop_empty-none y xs e))))
  | inr (z, zs, e) ↦
      let popped = pop_empty (y ∷ xs) in
      let spread = join_newline x popped z zs e in
      elim (join-pop_empty (y ∷ xs)) [
        | inl same ↦ inl (spread ∙ ap (λ l. x ++ 10 ∷ l) same)
        | inr ends ↦ inr (
            ap (λ l. l ++ 10 ∷ []) spread
            ∙ append_assoc x (10 ∷ join_lines popped) (10 ∷ [])
            ∙ ap (λ l. x ++ 10 ∷ l) ends)
      ]
]

texts-diff_line : (ls : List Str) → map (λ l. l.text) (map diff_line ls) ≡ ls
unfolding diff_line
texts-diff_line [] = refl
texts-diff_line (l ∷ ls) = ap (λ ms. l ∷ ms) (texts-diff_line ls)

kinds-diff_line : (ls : List Str) → All (λ l. l.kind ≡ classify_diff_line l.text) (map diff_line ls)
unfolding diff_line
kinds-diff_line [] = tt
kinds-diff_line (l ∷ ls) = (refl, kinds-diff_line ls)

-- The lines of a diff, joined, are its text, but for a newline at the end of the text; the kind of each
-- line is that of its text.
pub diff_lines_join :
    (text : Str)
    → ((join_lines (map (λ l. l.text) (diff_lines text)) ≡ text)
        ⊎ (join_lines (map (λ l. l.text) (diff_lines text)) ++ 10 ∷ [] ≡ text))
      × All (λ l. l.kind ≡ classify_diff_line l.text) (diff_lines text)
unfolding diff_lines join_lines
diff_lines_join [] = (inl refl, tt)
diff_lines_join (c ∷ text) =
    let ls = split 10 (c ∷ text) in
    let joined = ap join_lines (texts-diff_line (pop_empty ls)) in
    (
      elim (join-pop_empty ls) [
        | inl e ↦ inl (joined ∙ e ∙ join-split (c ∷ text))
        | inr e ↦ inr (ap (λ l. l ++ 10 ∷ []) joined ∙ e ∙ join-split (c ∷ text))
      ],
      kinds-diff_line (pop_empty ls),
    )

-- From a minute on, formatMs is at most half a second off, and it says 60 seconds, instead of one more
-- minute, in the last half second of each minute.
pub format_ms_near :
    (fixed : ℕ → Str) (ms : ℕ)
    → 60000 ≤ ms
    → (m : ℕ) × (s : ℕ) × (format_ms fixed (some ms) ≡ minutes m s)
      × (1000 * (60 * m + s) ≤ ms + 500)
      × (ms < 1000 * (60 * m + s) + 500 + 1)
      × (s ≤ 60)
      × ((s ≡ 60) ↔ (59500 ≤ ms % 60000))
unfolding format_ms round_thousandths
format_ms_near fixed ms h = (
  ms / 60000,
  (ms % 60000 + 500) / 1000,
  ground (arith, h),
  omega arith,
  omega arith,
  omega arith,
  ((λ e. omega (arith, e)), λ e. omega (arith, e)),
)
