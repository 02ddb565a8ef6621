-- ===== src/Toast/Tests.antt =====
-- A run of the store: five toasts, of which the first is pushed out, and one dismissal.
use restitch_gateway.Prelude.{◌≡◌, refl, true, none, [], ◌∷◌, map, codes, any, ◌==◌}
use restitch_gateway.Toast.{
  ToastInput, ToastStore, start_store, toast, dismiss, expire, keep_last, find_item, mark_leaving,
}
use restitch_gateway.Toast.Store.{
  shown, dismissed, timed_out, Reachable, start, after, IsTidy, store-IsTidy,
}

abbrev saved : ToastInput
saved = record { title = codes "Saved"; description = none; tone = none; link = none }

abbrev more : ToastStore → ToastStore
more st = toast saved st

abbrev five : ToastStore
five = more (more (more (more (more start_store))))

abbrev run : ToastStore
run = expire 3 (dismiss 3 five)

five-Reachable : Reachable five
five-Reachable =
    after _ _
      (after _ _
        (after _ _ (after _ _ (after _ _ start (shown _ saved)) (shown _ saved)) (shown _ saved))
        (shown _ saved))
      (shown _ saved)

waits : any (λ i. i == 3) (dismiss 3 five).pending ≡ true
unfolding dismiss toast keep_last find_item mark_leaving
waits = refl

run-Reachable : Reachable run
run-Reachable =
    after (dismiss 3 five) run (after five (dismiss 3 five) five-Reachable (dismissed five 3))
      (timed_out (dismiss 3 five) 3 waits)

store-IsTidy_example : IsTidy run
store-IsTidy_example = store-IsTidy run run-Reachable

run_ids : map (λ t. t.id) run.items ≡ 2 ∷ 4 ∷ 5 ∷ []
unfolding dismiss expire toast keep_last find_item mark_leaving
run_ids = refl
