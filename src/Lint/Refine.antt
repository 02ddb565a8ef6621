-- ===== src/Lint/Refine.antt =====
-- The hooks of lint.tsx against a machine that knows one question and its latest answer.
use restitch_gateway.Prelude.{
  ℕ, zero, suc, ◌≡◌, refl, sym, subst, ap, ◌∙◌, true, false, inl, inr, Option, none, some, List, [],
  ◌∷◌, arith, if◌then◌else◌, Bool-cases, get_elem?, All,
}
use restitch_gateway.Lint.{
  Reply, Check, Stage, waiting, asked, settled, Run, Hook, Event, rendered, timer, replied,
  late_timer, late_reply, unmounted, is_waiting, set, clean, is_changed, cleanup, clean_run,
  start_run, time_current, reply_current, time_old, reply_old, render, step, run, mount,
}

-- The question that is open, if one is, with its stage, and what is shown. It has no closures and no
-- old requests.
pub record Latest (K A : Type 0) : Type 0 where
  pub key : Option K
  pub phase : Option Stage
  pub answer : A
  pub asked_for : List K

module _ {K : Type 0} where
  -- A run whose cleanup was called: nothing that it closes over can show anything or send anything.
  abbrev pub IsOver : Run K → Type 0
  IsOver r = (r.live ≡ false) × (is_waiting r.stage ≡ false)

  abbrev pub IsOpen : Option K → Option (Run K) → Type 0
  IsOpen deps none = Unit
  IsOpen deps (some r) = (deps ≡ some r.key) × (r.live ≡ true)

  set-All :
      (rs : List (Run K)) (i : ℕ) (r : Run K) → All IsOver rs → IsOver r → All IsOver (set rs i r)
  set-All [] i r hs h = tt
  set-All (s ∷ rs) zero r (h', hs) h = (h, hs)
  set-All (s ∷ rs) (suc i) r (h', hs) h = (h', set-All rs i r hs h)

  get_elem?-All :
      (rs : List (Run K)) (i : ℕ) (r : Run K) → All IsOver rs → get_elem? rs i ≡ some r → IsOver r
  get_elem?-All [] i r hs e = cc
  get_elem?-All (s ∷ rs) zero r (h, hs) e = ground (arith, h)
  get_elem?-All (s ∷ rs) (suc i) r (h, hs) e = get_elem?-All rs i r hs e

  clean-IsOver : (r : Run K) → IsOver (clean r)
  clean-IsOver r = ground arith

  abbrev pub stage_of : Option (Run K) → Option Stage
  stage_of none = none
  stage_of (some r) = some r.stage

module _ {K A : Type 0} where
  pub record IsTidy (h : Hook K A) : Type 0 where
    pub over : All IsOver h.old
    pub open_key : IsOpen h.deps h.current

  abbrev pub view : Hook K A → Latest K A
  view h = record { key = h.deps; phase = stage_of h.current; answer = h.shown; asked_for = h.sent }

  pub mount-IsTidy : (shown : A) → IsTidy (mount {K = K} shown)
  mount-IsTidy shown = record { over = tt; open_key = tt }

module _ {K Q D A : Type 0} (c : Check K Q D A) where
  abbrev pub ask : K → Option Q → Latest K A → Latest K A
  ask k none v = record v { key = some k; phase = none; answer = c.skip v.answer }
  ask k (some q) v = record v { key = some k; phase = some waiting }

  abbrev pub send : Option K → Option Stage → Latest K A → Latest K A
  send (some k) (some waiting) v = record v { phase = some asked; asked_for = k ∷ v.asked_for }
  send _ _ v = v

  abbrev pub receive : Reply D → Option Stage → Latest K A → Latest K A
  receive reply (some asked) v = record v { phase = some settled; answer = c.value reply }
  receive reply _ v = v

  -- Late timers and late replies do nothing at all.
  unfoldable pub follow : Event K D → Latest K A → Latest K A
  follow (rendered k) v = if is_changed c v.key k then ask k (c.question k) v else v
  follow timer v = send v.key v.phase v
  follow (replied reply) v = receive reply v.phase v
  follow (late_timer i) v = v
  follow (late_reply i reply) v = v
  follow unmounted v = record v { phase = none }

  unfoldable pub replay : List (Event K D) → Latest K A → Latest K A
  replay [] v = v
  replay (e ∷ es) v = replay es (follow e v)

  clean_run-IsTidy : (o : Option (Run K)) (h : Hook K A) → IsTidy h → IsTidy (clean_run c o h)
  clean_run-IsTidy none h t = t
  clean_run-IsTidy (some r) h t = record { over = (clean-IsOver r, t.over); open_key = tt }

  view-cleanup : (h : Hook K A) → view (cleanup c h) ≡ record (view h) { phase = none }
  unfolding cleanup
  view-cleanup h = ground arith

  cleanup-closed : (h : Hook K A) → (cleanup c h).current ≡ none
  unfolding cleanup
  cleanup-closed h = ground arith

  start_run-IsTidy :
      (q : Option Q) (k : K) (h : Hook K A)
      → IsTidy h
      → h.current ≡ none
      → IsTidy (start_run c q k h)
  start_run-IsTidy none k h t shut = record {
    over = t.over;
    open_key = subst (IsOpen (some k)) (sym shut) tt;
  }
  start_run-IsTidy (some q) k h t shut = record { over = t.over; open_key = (refl, refl) }

  view-start_run :
      (q : Option Q) (k : K) (h : Hook K A)
      → h.current ≡ none
      → view (start_run c q k h) ≡ ask k q (view h)
  view-start_run none k h shut = ground arith
  view-start_run (some q) k h shut = ground arith

  cleanup-IsTidy : (h : Hook K A) → IsTidy h → IsTidy (cleanup c h)
  unfolding cleanup
  cleanup-IsTidy h t = clean_run-IsTidy h.current h t

  render-IsTidy : (k : K) (h : Hook K A) → IsTidy h → IsTidy (render c k h)
  unfolding render
  render-IsTidy k h t = elim (Bool-cases (is_changed c h.deps k)) [
    | inl e ↦
        rw e
          (start_run-IsTidy (c.question k) k (cleanup c h) (cleanup-IsTidy h t) (cleanup-closed h))
    | inr e ↦ rw e t
  ]

  view-render : (k : K) (h : Hook K A) → view (render c k h) ≡ follow (rendered k) (view h)
  unfolding render follow
  view-render k h =
      ground
        (arith, view-start_run (c.question k) k (cleanup c h), cleanup-closed h, view-cleanup h)

  time_current-lem :
      (o : Option (Run K)) (h : Hook K A)
      → IsTidy h
      → h.current ≡ o
      → IsTidy (time_current c o h)
        × (view (time_current c o h) ≡ send h.deps (stage_of o) (view h))
  time_current-lem none h t e = (t, ground arith)
  time_current-lem (some r) h t e =
      let still : IsOpen h.deps (some r) = subst (IsOpen h.deps) e t.open_key in
      (record { over = t.over; open_key = still }, ground arith)

  reply_current-lem :
      (reply : Reply D) (o : Option (Run K)) (h : Hook K A)
      → IsTidy h
      → h.current ≡ o
      → IsTidy (reply_current c reply o h)
        × (view (reply_current c reply o h) ≡ receive reply (stage_of o) (view h))
  reply_current-lem reply none h t e = (t, ground arith)
  reply_current-lem reply (some r) h t e =
      let still : IsOpen h.deps (some r) = subst (IsOpen h.deps) e t.open_key in
      (record { over = t.over; open_key = still }, ground arith)

  time_old-lem :
      (i : ℕ) (o : Option (Run K)) (h : Hook K A)
      → IsTidy h
      → get_elem? h.old i ≡ o
      → IsTidy (time_old c i o h) × (view (time_old c i o h) ≡ view h)
  time_old-lem i none h t e = (t, refl)
  time_old-lem i (some r) h t e =
      let over = get_elem?-All h.old i r t.over e in
      (
        record { over = set-All h.old i _ t.over (ground arith); open_key = t.open_key },
        ground arith,
      )

  reply_old-lem :
      (reply : Reply D) (i : ℕ) (o : Option (Run K)) (h : Hook K A)
      → IsTidy h
      → get_elem? h.old i ≡ o
      → IsTidy (reply_old c reply i o h) × (view (reply_old c reply i o h) ≡ view h)
  reply_old-lem reply i none h t e = (t, refl)
  reply_old-lem reply i (some r) h t e =
      let over = get_elem?-All h.old i r t.over e in
      (
        record { over = set-All h.old i _ t.over (ground arith); open_key = t.open_key },
        ground arith,
      )

  step-follow :
      (e : Event K D) (h : Hook K A)
      → IsTidy h
      → IsTidy (step c e h) × (view (step c e h) ≡ follow e (view h))
  unfolding step
  step-follow (rendered k) h t = (render-IsTidy k h t, view-render k h)
  step-follow timer h t = unfold follow in time_current-lem h.current h t refl
  step-follow (replied reply) h t = unfold follow in reply_current-lem reply h.current h t refl
  step-follow (late_timer i) h t = unfold follow in time_old-lem i (get_elem? h.old i) h t refl
  step-follow (late_reply i reply) h t =
      unfold follow in reply_old-lem reply i (get_elem? h.old i) h t refl
  step-follow unmounted h t = unfold follow in (cleanup-IsTidy h t, view-cleanup h)

  pub run-replay :
      (es : List (Event K D)) (h : Hook K A)
      → IsTidy h
      → IsTidy (run c es h) × (view (run c es h) ≡ replay es (view h))
  unfolding run replay
  run-replay [] h t = (t, refl)
  run-replay (e ∷ es) h t =
      let (t', same) = step-follow e h t in
      let (t'', rest) = run-replay es (step c e h) t' in (t'', rest ∙ ap (replay es) same)

  -- Whatever renders, timers, replies and late replies come, what a hook shows, asks and has sent is
  -- what the machine of the latest question shows, asks and has sent: a late timer sends nothing, and
  -- the reply to an old question is never shown.
  pub run-mount_refines :
      (shown : A) (es : List (Event K D))
      → view (run c es (mount shown)) ≡ replay es (view (mount shown))
  run-mount_refines shown es = (run-replay es (mount shown) (mount-IsTidy shown)).1
