-- ===== src/Text.antt =====
-- The string functions of JavaScript that Studio calls, on code units.
use restitch_gateway.Prelude.{
  ℕ, suc, Bool, true, false, ◌&&◌, ◌||◌, Option, none, some, List, [], ◌∷◌, Str, ◌==◌, leb,
  if◌then◌else◌, drop,
}
use mathlib.Core.List.{reverse}

-- White space and line ends, as `trim` and the class `\s` take them.
unfoldable pub is_space : ℕ → Bool
is_space c =
    leb 9 c && leb c 13
    || c == 32
    || c == 160
    || c == 5760
    || leb 8192 c && leb c 8202
    || c == 8232
    || c == 8233
    || c == 8239
    || c == 8287
    || c == 12288
    || c == 65279

unfoldable pub trim_start : Str → Str
trim_start [] = []
trim_start (c ∷ s) = if is_space c then trim_start s else c ∷ s

unfoldable pub trim : Str → Str
trim s = reverse (trim_start (reverse (trim_start s)))

unfoldable pub starts_with : Str → Str → Bool
starts_with s [] = true
starts_with [] (d ∷ p) = false
starts_with (c ∷ s) (d ∷ p) = c == d && starts_with s p

-- `s.indexOf(p)` from the start of `s`, counting from `i`.
unfoldable pub index_from : ℕ → Str → Str → Option ℕ
index_from i [] p = if starts_with [] p then some i else none
index_from i (c ∷ s) p =
    let rest = index_from (suc i) s p in if starts_with (c ∷ s) p then some i else rest

-- `s.indexOf(p, from)`; `none` is -1. Here `from` is never past the end by more than `p` allows.
unfoldable pub index_of : Str → Str → ℕ → Option ℕ
index_of s p from = index_from from (drop from s) p

unfoldable pub contains : Str → Str → Bool
contains s p = elim (index_of s p 0) [ none ↦ false | some i ↦ true ]

unfoldable pub push_front : ℕ → List Str → List Str
push_front c [] = (c ∷ []) ∷ []
push_front c (x ∷ xs) = (c ∷ x) ∷ xs

-- `s.split(sep)` for a separator of one unit.
unfoldable pub split : ℕ → Str → List Str
split sep [] = [] ∷ []
split sep (c ∷ s) = let rest = split sep s in if c == sep then [] ∷ rest else push_front c rest
