-- ===== src/Toast/Store.antt =====
-- Runs of the store of toast.tsx, and what holds after each of them.
use restitch_gateway.Prelude.{
  ℕ, zero, suc, ◌-◌, ◌≤◌, ◌<◌, ◌≡◌, refl, Bool, true, false, not, ◌⊎◌, inl, inr, Option, none, some,
  List, [], ◌∷◌, ◌++◌, arith, ◌==◌, ltb, Bool-cases, length, length-filter_le, drop, filter, All,
  All-append, All-imp, All-filter, All-filter_imp, any,
}
use restitch_gateway.Toast.{
  ToastInput, ToastItem, ToastStore, start_store, keep_last, toast, find_item, mark_leaving,
  dismiss, dismiss_found, expire,
}

-- What can happen to the store: a toast, a dismissal, and a timeout that is pending.
pub data Step : ToastStore → ToastStore → Type 0 where
  shown : (st : ToastStore) (input : ToastInput) → Step st (toast input st)
  dismissed : (st : ToastStore) (id : ℕ) → Step st (dismiss id st)
  timed_out :
      (st : ToastStore) (id : ℕ) → any (λ i. i == id) st.pending ≡ true → Step st (expire id st)

pub data Reachable : ToastStore → Type 0 where
  start : Reachable start_store
  after : (st st' : ToastStore) → Reachable st → Step st st' → Reachable st'

-- The ids go up.
abbrev pub IsRising : List ToastItem → Type 0
IsRising [] = Unit
IsRising (t ∷ ts) = All (λ u. t.id < u.id) ts × IsRising ts

abbrev pub IsAwaited : List ℕ → ToastItem → Type 0
IsAwaited pending t = (t.leaving ≡ false) ⊎ (any (λ i. i == t.id) pending ≡ true)

pub record IsTidy (st : ToastStore) : Type 0 where
  pub few : length st.items ≤ 4
  pub rising : IsRising st.items
  pub old : All (λ t. t.id < st.next_id) st.items
  -- What leaves has a timeout that will remove it.
  pub awaited : All (IsAwaited st.pending) st.items

module _ {ℓ κ} {A : Type ℓ} (P : A → Type κ) where
  All-drop : (n : ℕ) (xs : List A) → All P xs → All P (drop n xs)
  All-drop zero xs hs = hs
  All-drop (suc n) [] hs = tt
  All-drop (suc n) (x ∷ xs) (h, hs) = All-drop n xs hs

length-drop {ℓ} : {A : Type ℓ} (n : ℕ) (xs : List A) → length (drop n xs) ≡ length xs - n
length-drop zero xs = omega arith
length-drop (suc n) [] = omega arith
length-drop (suc n) (x ∷ xs) = omega (arith, length-drop n xs)

drop-IsRising : (n : ℕ) (ts : List ToastItem) → IsRising ts → IsRising (drop n ts)
drop-IsRising zero ts h = h
drop-IsRising (suc n) [] h = tt
drop-IsRising (suc n) (t ∷ ts) (h, hs) = drop-IsRising n ts hs

append-IsRising :
    (ts : List ToastItem) (t : ToastItem)
    → All (λ u. u.id < t.id) ts
    → IsRising ts
    → IsRising (ts ++ t ∷ [])
append-IsRising [] t h r = (tt, tt)
append-IsRising (u ∷ ts) t (h, hs) (r, rs) =
    (All-append (λ v. u.id < v.id) ts (t ∷ []) r (h, tt), append-IsRising ts t hs rs)

filter-IsRising :
    (p : ToastItem → Bool) (ts : List ToastItem) → IsRising ts → IsRising (filter p ts)
filter-IsRising p [] h = tt
filter-IsRising p (t ∷ ts) (h, hs) = elim (Bool-cases (p t)) [
  | inl e ↦ rw e (All-filter (λ u. t.id < u.id) p ts h, filter-IsRising p ts hs)
  | inr e ↦ rw e (filter-IsRising p ts hs)
]

keep_last-length : (ts : List ToastItem) → length (keep_last ts) ≤ 4
unfolding keep_last
keep_last-length ts = ground (arith, length-drop (length ts - 4) ts)

keep_last-IsRising : (ts : List ToastItem) → IsRising ts → IsRising (keep_last ts)
unfolding keep_last
keep_last-IsRising ts h = elim (Bool-cases (ltb 4 (length ts))) [
  | inl e ↦ rw e (drop-IsRising (length ts - 4) ts h)
  | inr e ↦ rw e h
]

keep_last-All : (P : ToastItem → Type 0) (ts : List ToastItem) → All P ts → All P (keep_last ts)
unfolding keep_last
keep_last-All P ts h = elim (Bool-cases (ltb 4 (length ts))) [
  | inl e ↦ rw e (All-drop P (length ts - 4) ts h)
  | inr e ↦ rw e h
]

toast-IsTidy : (input : ToastInput) (st : ToastStore) → IsTidy st → IsTidy (toast input st)
unfolding toast
toast-IsTidy input st h =
    let t : ToastItem = record { input = input; id = st.next_id; leaving = false } in
    let ts = st.items ++ t ∷ [] in
    record {
      few = keep_last-length ts;
      rising = keep_last-IsRising ts (append-IsRising st.items t h.old h.rising);
      old = keep_last-All _ ts (
          All-append _ st.items (t ∷ []) (All-imp _ _ (λ u le. omega (arith, le)) st.items h.old)
            (omega arith, tt));
      awaited = keep_last-All _ ts (All-append _ st.items (t ∷ []) h.awaited (inl refl, tt));
    }

any_without :
    (pending : List ℕ) (id j : ℕ)
    → not (j == id) ≡ true
    → any (λ i. i == j) pending ≡ true
    → any (λ i. i == j) (filter (λ i. not (i == id)) pending) ≡ true
any_without [] id j ne h = h
any_without (i ∷ pending) id j ne h = ground (arith, any_without pending id j ne)

still-IsAwaited :
    (pending : List ℕ) (id : ℕ) (t : ToastItem)
    → IsAwaited pending t
    → not (t.id == id) ≡ true
    → IsAwaited (filter (λ i. not (i == id)) pending) t
still-IsAwaited pending id t (inl stays) ne = inl stays
still-IsAwaited pending id t (inr h) ne = inr (any_without pending id t.id ne h)

expire-IsTidy : (id : ℕ) (st : ToastStore) → IsTidy st → IsTidy (expire id st)
unfolding expire
expire-IsTidy id st h = record {
  few = omega (arith, length-filter_le (λ t. not (t.id == id)) st.items, h.few);
  rising = filter-IsRising _ st.items h.rising;
  old = All-filter _ _ st.items h.old;
  awaited =
      All-filter_imp (IsAwaited st.pending) (IsAwaited (filter (λ i. not (i == id)) st.pending))
        (λ t. not (t.id == id)) (λ t a kept. still-IsAwaited st.pending id t a kept) st.items
        h.awaited;
}

mark_leaving-All :
    (P : ℕ → Type 0) (ts : List ToastItem) (id : ℕ)
    → All (λ t. P t.id) ts
    → All (λ t. P t.id) (mark_leaving ts id)
unfolding mark_leaving
mark_leaving-All P [] id hs = tt
mark_leaving-All P (t ∷ ts) id (h, hs) = elim (Bool-cases (t.id == id)) [
  | inl e ↦ rw (mark_leaving, e) (h, hs)
  | inr e ↦ rw (mark_leaving, e) (h, mark_leaving-All P ts id hs)
]

length-mark_leaving : (ts : List ToastItem) (id : ℕ) → length (mark_leaving ts id) ≡ length ts
unfolding mark_leaving
length-mark_leaving [] id = refl
length-mark_leaving (t ∷ ts) id = ground (arith, length-mark_leaving ts id)

mark_leaving-IsRising : (ts : List ToastItem) (id : ℕ) → IsRising ts → IsRising (mark_leaving ts id)
unfolding mark_leaving
mark_leaving-IsRising [] id h = tt
mark_leaving-IsRising (t ∷ ts) id (h, hs) = elim (Bool-cases (t.id == id)) [
  | inl e ↦ rw (mark_leaving, e) (h, hs)
  | inr e ↦
      rw (mark_leaving, e)
        (mark_leaving-All (λ i. t.id < i) ts id h, mark_leaving-IsRising ts id hs)
]

IsAwaited-more :
    (pending : List ℕ) (id : ℕ) (t : ToastItem) → IsAwaited pending t → IsAwaited (id ∷ pending) t
IsAwaited-more pending id t (inl e) = inl e
IsAwaited-more pending id t (inr e) = inr (ground (arith, e))

mark_leaving-IsAwaited :
    (pending : List ℕ) (ts : List ToastItem) (id : ℕ)
    → All (IsAwaited pending) ts
    → All (IsAwaited (id ∷ pending)) (mark_leaving ts id)
unfolding mark_leaving
mark_leaving-IsAwaited pending [] id hs = tt
mark_leaving-IsAwaited pending (t ∷ ts) id (h, hs) = elim (Bool-cases (t.id == id)) [
  | inl e ↦
      rw (mark_leaving, e)
        (inr (ground (arith, e)), All-imp _ _ (λ u. IsAwaited-more pending id u) ts hs)
  | inr e ↦
      rw (mark_leaving, e) (IsAwaited-more pending id t h, mark_leaving-IsAwaited pending ts id hs)
]

dismiss_found-IsTidy :
    (st : ToastStore) (id : ℕ) (t : Option ToastItem) → IsTidy st → IsTidy (dismiss_found st id t)
dismiss_found-IsTidy st id none h = h
dismiss_found-IsTidy st id (some t) h = elim (Bool-cases t.leaving) [
  | inl e ↦ rw e h
  | inr e ↦ rw e (record {
    few = omega (arith, length-mark_leaving st.items id, h.few);
    rising = mark_leaving-IsRising st.items id h.rising;
    old = mark_leaving-All (λ i. i < st.next_id) st.items id h.old;
    awaited = mark_leaving-IsAwaited st.pending st.items id h.awaited;
  })
]

dismiss-IsTidy : (id : ℕ) (st : ToastStore) → IsTidy st → IsTidy (dismiss id st)
unfolding dismiss
dismiss-IsTidy id st h = dismiss_found-IsTidy st id (find_item st.items id) h

-- After any run of the store, at most four toasts are there, in the order of their ids, which differ,
-- and each toast that is leaving has a pending timeout that removes it.
pub store-IsTidy : (st : ToastStore) → Reachable st → IsTidy st
store-IsTidy st start = record { few = omega arith; rising = tt; old = tt; awaited = tt }
store-IsTidy st (after s s' r (shown _ input)) = toast-IsTidy input s (store-IsTidy s r)
store-IsTidy st (after s s' r (dismissed _ id)) = dismiss-IsTidy id s (store-IsTidy s r)
store-IsTidy st (after s s' r (timed_out _ id h)) = expire-IsTidy id s (store-IsTidy s r)
