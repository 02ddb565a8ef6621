-- ===== src/Lint/Settle.antt =====
-- What the hooks of lint.tsx show once a key has settled.
use restitch_gateway.Prelude.{
  ◌≡◌, refl, ap, ◌∙◌, Bool, true, false, some, List, [], ◌∷◌, ◌++◌, arith, All,
}
use restitch_gateway.Lint.{
  Reply, Check, asked, settled, Event, rendered, timer, replied, late_timer, late_reply, unmounted,
  is_changed, run, mount,
}
use restitch_gateway.Lint.Refine.{Latest, mount-IsTidy, view, ask, follow, replay, run-replay}

module _ {K Q D A : Type 0} (c : Check K Q D A) where
  abbrev pub is_late : Event K D → Bool
  is_late (late_timer i) = true
  is_late (late_reply i reply) = true
  is_late _ = false

  replay-append :
      (xs ys : List (Event K D)) (v : Latest K A)
      → replay c (xs ++ ys) v ≡ replay c ys (replay c xs v)
  unfolding replay
  replay-append [] ys v = refl
  replay-append (e ∷ xs) ys v = replay-append xs ys (follow c e v)

  replay_late :
      (es : List (Event K D)) (v : Latest K A) → All (λ e. is_late e ≡ true) es → replay c es v ≡ v
  unfolding replay follow
  replay_late [] v hs = refl
  replay_late (late_timer i ∷ es) v (h, hs) = replay_late es v hs
  replay_late (late_reply i reply ∷ es) v (h, hs) = replay_late es v hs
  replay_late (rendered k ∷ es) v (h, hs) = cc
  replay_late (timer ∷ es) v (h, hs) = cc
  replay_late (replied reply ∷ es) v (h, hs) = cc
  replay_late (unmounted ∷ es) v (h, hs) = cc

  replay_skip :
      (es rest : List (Event K D)) (v : Latest K A)
      → All (λ e. is_late e ≡ true) es
      → replay c (es ++ rest) v ≡ replay c rest v
  replay_skip es rest v late = replay-append es rest v ∙ ap (replay c rest) (replay_late es v late)

  abbrev answered_view : K → Reply D → Latest K A → Latest K A
  answered_view k reply v = record {
    key = some k;
    phase = some settled;
    answer = c.value reply;
    asked_for = k ∷ v.asked_for;
  }

  -- The events around the three that settle a key: late ones only.
  abbrev pub settling :
      K → Reply D → List (Event K D) → List (Event K D) → List (Event K D) → List (Event K D)
  settling k reply first second third =
      rendered k ∷ (first ++ (timer ∷ (second ++ (replied reply ∷ third))))

  replay_settles :
      (k : K) (q : Q) (reply : Reply D) (v : Latest K A) (first second third : List (Event K D))
      → is_changed c v.key k ≡ true
      → c.question k ≡ some q
      → All (λ e. is_late e ≡ true) first
      → All (λ e. is_late e ≡ true) second
      → All (λ e. is_late e ≡ true) third
      → replay c (settling k reply first second third) v ≡ answered_view k reply v
  unfolding replay follow
  replay_settles k q reply v first second third new asks l1 l2 l3 =
      let v1 : Latest K A = ask c k (some q) v in
      let v2 : Latest K A = record v1 { phase = some asked; asked_for = k ∷ v.asked_for } in
      let e1 : follow c (rendered k) v ≡ v1 = ground arith in
      ap (replay c (first ++ (timer ∷ (second ++ (replied reply ∷ third))))) e1
      ∙ replay_skip first (timer ∷ (second ++ (replied reply ∷ third))) v1 l1
      ∙ replay_skip second (replied reply ∷ third) v2 l2
      ∙ replay_late third (answered_view k reply v) l3

  -- After any run from the mount: a key that differs from the last one, and about which there is
  -- something to ask, is answered. Once its timer fires and its reply comes, and whatever late timers and
  -- late replies of old runs come before, between and after, the hook shows what this reply says, and
  -- has sent one request more than before, for this key.
  pub run_settles :
      (shown : A) (es : List (Event K D)) (k : K) (q : Q) (reply : Reply D)
      (first second third : List (Event K D))
      → is_changed c (run c es (mount shown)).deps k ≡ true
      → c.question k ≡ some q
      → All (λ e. is_late e ≡ true) first
      → All (λ e. is_late e ≡ true) second
      → All (λ e. is_late e ≡ true) third
      → let h = run c es (mount shown) in
        let h' = run c (settling k reply first second third) h in
        (h'.shown ≡ c.value reply) × (h'.sent ≡ k ∷ h.sent)
  run_settles shown es k q reply first second third new asks l1 l2 l3 =
      let h = run c es (mount shown) in
      let tidy = (run-replay c es (mount shown) (mount-IsTidy shown)).0 in
      let e =
        (run-replay c (settling k reply first second third) h tidy).1
        ∙ replay_settles k q reply (view h) first second third new asks l1 l2 l3 in
      (ap (λ (v : Latest K A). v.answer) e, ap (λ (v : Latest K A). v.asked_for) e)
