-- ===== src/Toast.antt =====
-- studio/src/components/ui/toast.tsx: the store of the toasts and the timer of a card. A copy of the
-- list of items is the list itself; the array is never shared with a reader that keeps it.
pub mod Store
pub mod Tests
use restitch_gateway.Prelude.{
  ℕ, zero, suc, ◌+◌, ◌-◌, Bool, true, false, not, ◌||◌, Option, none, some, List, [], ◌∷◌, ◌++◌,
  Str, codes, ◌==◌, ltb, if◌then◌else◌, length, drop, filter,
}

pub data Tone : Type 0 where
  success error info : Tone

pub record ToastInput : Type 0 where
  pub title : Str
  pub description : Option Str
  pub tone : Option Tone
  pub link : Option (Str × Str)

pub record ToastItem : Type 0 where
  pub input : ToastInput
  pub id : ℕ
  pub leaving : Bool

-- `pending` holds the ids whose removal a timeout of 180 ms will bring.
pub record ToastStore : Type 0 where
  pub items : List ToastItem
  pub next_id : ℕ
  pub pending : List ℕ

abbrev pub start_store : ToastStore
start_store = record { items = []; next_id = 1; pending = [] }

-- `if (items.length > 4) items.splice(0, items.length - 4)`.
unfoldable pub keep_last : List ToastItem → List ToastItem
keep_last items = if ltb 4 (length items) then drop (length items - 4) items else items

-- `toast` returns the id, which is `next_id` before the call.
unfoldable pub toast : ToastInput → ToastStore → ToastStore
toast input st = record st {
  items = keep_last (st.items ++ record { input = input; id = st.next_id; leaving = false } ∷ []);
  next_id = st.next_id + 1;
}

unfoldable pub find_item : List ToastItem → ℕ → Option ToastItem
find_item [] id = none
find_item (t ∷ items) id = if t.id == id then some t else find_item items id

-- `t.leaving = true` of the item that was found: the first of that id.
unfoldable pub mark_leaving : List ToastItem → ℕ → List ToastItem
mark_leaving [] id = []
mark_leaving (t ∷ items) id =
    let rest = mark_leaving items id in
    if t.id == id then record t { leaving = true } ∷ items else t ∷ rest

abbrev pub dismiss_found : ToastStore → ℕ → Option ToastItem → ToastStore
dismiss_found st id none = st
dismiss_found st id (some t) =
    if t.leaving
    then st
    else record st { items = mark_leaving st.items id; pending = id ∷ st.pending }

unfoldable pub dismiss : ℕ → ToastStore → ToastStore
dismiss id st = dismiss_found st id (find_item st.items id)

-- The timeout of `dismiss`.
unfoldable pub expire : ℕ → ToastStore → ToastStore
expire id st = record st {
  items = filter (λ t. not (t.id == id)) st.items;
  pending = filter (λ i. not (i == id)) st.pending;
}

-- The timer of a card: the time at which it fires, if it runs. It starts when the card appears and when
-- the mouse leaves it, and stops while the mouse is over it.
unfoldable pub start_timer : ℕ → Option ℕ
start_timer now = some (now + 5000)

unfoldable pub stop_timer : Option ℕ → Option ℕ
stop_timer timer = none

-- What a card shows: the icon and role by the tone, and the link if there is one.
unfoldable pub tone_of : ToastInput → Tone
tone_of input = elim input.tone [ none ↦ success | some t ↦ t ]

unfoldable pub card_role : ToastInput → Str
card_role input = elim (tone_of input) [ error ↦ codes "alert" | _ ↦ codes "status" ]

unfoldable pub open_link : ToastItem → ToastStore → ToastStore × Option Str
open_link t st = elim t.input.link [
  | none ↦ (st, none)
  | some (label, href) ↦ (dismiss t.id st, some href)
]
