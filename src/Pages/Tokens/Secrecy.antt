-- ===== src/Pages/Tokens/Secrecy.antt =====
-- What the runs of TokensPage.tsx revoke, and what its dialog holds of a token.
use restitch_gateway.Prelude.{
  ◌≡◌, refl, ◌⊎◌, any, Str, ◌===◌, ===_refl, Bool, true, false, Option, none, some, List, [], ◌∷◌,
  get_elem?, All, All-imp, arith, Bool-cases, inl, inr,
}
use restitch_gateway.Session.{is_none}
use restitch_gateway.Editor.{is_pending}
use restitch_gateway.Pages.{sent}
use restitch_gateway.Pages.Tokens.{
  Token, OwnerTokens, start_tokens, TokenEvent, ask_revoke, confirm_revoke, token_step, token_run,
  Issue, may_issue, is_flying, is_current, TokenDialog, DialogEvent, dialog_step, dialog_run,
  pressed_new, closed_new, pressed_confirm, cancelled, revoked, pressed_revoke, refused, issued,
  typed, submitted, closed, answered, failed_with,
}

abbrev pub IsLive : Token → Type 0
IsLive t = t.revoked_at ≡ none

abbrev pub MayRevoke : Option Token → Type 0
MayRevoke none = Unit
MayRevoke (some t) = IsLive t

ask_revoke-MayRevoke :
    (t : Option Token) (st : OwnerTokens)
    → MayRevoke st.revoking
    → MayRevoke (ask_revoke t st).revoking
ask_revoke-MayRevoke none st h = h
ask_revoke-MayRevoke (some t) st h = elim (Bool-cases (is_none t.revoked_at)) [
  | inl e ↦ rw e (ground (arith, e))
  | inr e ↦ rw e h
]

confirm-MayRevoke :
    (t : Option Token) (st : OwnerTokens)
    → MayRevoke st.revoking
    → MayRevoke t
    → MayRevoke (confirm_revoke t st).0.revoking × MayRevoke (confirm_revoke t st).1
confirm-MayRevoke none st h k = (h, tt)
confirm-MayRevoke (some t) st h k = elim (Bool-cases (is_pending st.revoke)) [
  | inl e ↦ rw e (h, tt)
  | inr e ↦ rw e (h, k)
]

step-MayRevoke :
    (tokens : List Token) (e : TokenEvent) (st : OwnerTokens)
    → MayRevoke st.revoking
    → MayRevoke (token_step tokens e st).0.revoking × MayRevoke (token_step tokens e st).1
unfolding token_step
step-MayRevoke tokens pressed_new st h = (h, tt)
step-MayRevoke tokens closed_new st h = (h, tt)
step-MayRevoke tokens (pressed_revoke i) st h = (ask_revoke-MayRevoke (get_elem? tokens i) st h, tt)
step-MayRevoke tokens pressed_confirm st h = confirm-MayRevoke st.revoking st h h
step-MayRevoke tokens cancelled st h = (tt, tt)
step-MayRevoke tokens revoked st h = (tt, tt)
step-MayRevoke tokens (refused e) st h = (h, tt)

sent-All :
    (t : Option Token) (ts : List Token) → MayRevoke t → All IsLive ts → All IsLive (sent t ts)
sent-All none ts h hs = hs
sent-All (some t) ts h hs = (h, hs)

run-MayRevoke :
    (es : List (List Token × TokenEvent)) (st : OwnerTokens)
    → MayRevoke st.revoking
    → All IsLive (token_run es st)
unfolding token_run
run-MayRevoke [] st h = tt
run-MayRevoke ((tokens, e) ∷ es) st h =
    let (next, request) = step-MayRevoke tokens e st h in
    sent-All (token_step tokens e st).1 _ request (run-MayRevoke es (token_step tokens e st).0 next)

-- In any run of the page, whatever lists are loaded meanwhile, no request revokes a token that was
-- revoked already when the button of its row was pressed.
pub token_run-IsLive :
    (es : List (List Token × TokenEvent)) → All IsLive (token_run es start_tokens)
token_run-IsLive es = run-MayRevoke es start_tokens tt

abbrev pub holds_token : Issue → Bool
holds_token (issued token) = true
holds_token _ = false

-- No token is held, and none can come.
pub record IsQuiet (d : TokenDialog) : Type 0 where
  pub shown : d.token ≡ []
  pub kept : holds_token d.issue ≡ false
  pub landed : d.flying ≡ []

abbrev pub is_submitted : DialogEvent → Bool
is_submitted submitted = true
is_submitted _ = false

step-IsQuiet :
    (e : DialogEvent) (d : TokenDialog)
    → is_submitted e ≡ false
    → IsQuiet d
    → IsQuiet (dialog_step e d).0
unfolding dialog_step
step-IsQuiet (typed name) d quiet q = record { shown = q.shown; kept = q.kept; landed = q.landed }
step-IsQuiet submitted d quiet q = cc
step-IsQuiet closed d quiet q = record { shown = refl; kept = refl; landed = q.landed }
step-IsQuiet (answered id token) d quiet q = ground (arith, q.landed)
step-IsQuiet (failed_with id e) d quiet q = ground (arith, q.landed)

run-IsQuiet :
    (es : List DialogEvent) (d : TokenDialog)
    → All (λ e. is_submitted e ≡ false) es
    → IsQuiet d
    → IsQuiet (dialog_run es d)
unfolding dialog_run
run-IsQuiet [] d quiet q = q
run-IsQuiet (e ∷ es) d (n, quiet) q =
    run-IsQuiet es (dialog_step e d).0 quiet (step-IsQuiet e d n q)

closed-IsQuiet : (d : TokenDialog) → d.flying ≡ [] → IsQuiet (dialog_step closed d).0
unfolding dialog_step
closed-IsQuiet d h = record { shown = refl; kept = refl; landed = h }

-- When the dialog is closed while no request is without an answer, then whatever
-- happens next, as long as the form is not submitted again, no state of the dialog holds a token.
pub dialog_run-IsQuiet :
    (d : TokenDialog) (es : List DialogEvent)
    → d.flying ≡ []
    → All (λ e. is_submitted e ≡ false) es
    → IsQuiet (dialog_run es (dialog_step closed d).0)
dialog_run-IsQuiet d es h quiet = run-IsQuiet es _ quiet (closed-IsQuiet d h)

-- The event is an answer with this token.
abbrev pub is_answer : Str → DialogEvent → Bool
is_answer token (answered id t) = t === token
is_answer token _ = false

abbrev issue_token : Issue → Str
issue_token (issued token) = token
issue_token _ = []

-- What the dialog holds, on the screen and in its mutation, is no token or one that an answer among the
-- events has brought.
pub record CameWith (es : List DialogEvent) (d : TokenDialog) : Type 0 where
  pub screen : (d.token ≡ []) ⊎ (any (is_answer d.token) es ≡ true)
  pub mutation : (issue_token d.issue ≡ []) ⊎ (any (is_answer (issue_token d.issue)) es ≡ true)

-- A property of the texts that the dialog takes over from the answers.
abbrev AnswerHas : (Str → Type 0) → DialogEvent → Type 0
AnswerHas P (answered id token) = P token
AnswerHas P _ = Unit

abbrev Holds : (Str → Type 0) → TokenDialog → Type 0
Holds P d = P d.token × P (issue_token d.issue)

module _ (P : Str → Type 0) (none_held : P []) where
  step-Holds :
      (e : DialogEvent) (d : TokenDialog) → AnswerHas P e → Holds P d → Holds P (dialog_step e d).0
  unfolding dialog_step
  step-Holds (typed name) d a (s, m) = (s, m)
  step-Holds submitted d a (s, m) = elim (Bool-cases (may_issue d)) [
    | inl e ↦ rw (dialog_step, e) (s, none_held)
    | inr e ↦ rw (dialog_step, e) (s, m)
  ]
  step-Holds closed d a h = (none_held, none_held)
  step-Holds (answered id t) d a (s, m) = elim (Bool-cases (is_flying d.flying id)) [
    | inl e ↦ elim (Bool-cases (is_current d.current id)) [
      | inl c ↦ rw (dialog_step, e, c) (a, a)
      | inr c ↦ rw (dialog_step, e, c) (a, m)
    ]
    | inr e ↦ rw (dialog_step, e) (s, m)
  ]
  step-Holds (failed_with id f) d a (s, m) = elim (Bool-cases (is_flying d.flying id)) [
    | inl e ↦ elim (Bool-cases (is_current d.current id)) [
      | inl c ↦ rw (dialog_step, e, c) (s, none_held)
      | inr c ↦ rw (dialog_step, e, c) (s, m)
    ]
    | inr e ↦ rw (dialog_step, e) (s, m)
  ]

  run-Holds :
      (es : List DialogEvent) (d : TokenDialog)
      → All (AnswerHas P) es
      → Holds P d
      → Holds P (dialog_run es d)
  unfolding dialog_run
  run-Holds [] d hs h = h
  run-Holds (e ∷ es) d (a, hs) h = run-Holds es (dialog_step e d).0 hs (step-Holds e d a h)

abbrev Brought : List DialogEvent → Str → Type 0
Brought es t = (t ≡ []) ⊎ (any (is_answer t) es ≡ true)

Brought-more :
    (e : DialogEvent) (es : List DialogEvent) (t : Str) → Brought es t → Brought (e ∷ es) t
Brought-more e es t (inl h) = inl h
Brought-more e es t (inr h) = inr (ground (arith, h))

answers-more :
    (e x : DialogEvent) (es : List DialogEvent)
    → AnswerHas (Brought es) x
    → AnswerHas (Brought (e ∷ es)) x
answers-more e (answered id t) es h = Brought-more e es t h
answers-more e (typed name) es h = tt
answers-more e submitted es h = tt
answers-more e closed es h = tt
answers-more e (failed_with id f) es h = tt

own_answer : (e : DialogEvent) (es : List DialogEvent) → AnswerHas (Brought (e ∷ es)) e
own_answer (answered id t) es = inr (ground (arith, ===_refl t))
own_answer (typed name) es = tt
own_answer submitted es = tt
own_answer closed es = tt
own_answer (failed_with id f) es = tt

answers-Brought : (es : List DialogEvent) → All (AnswerHas (Brought es)) es
answers-Brought [] = tt
answers-Brought (e ∷ es) = (
  own_answer e es,
  All-imp (AnswerHas (Brought es)) (AnswerHas (Brought (e ∷ es))) (λ x h. answers-more e x es h) es
      (answers-Brought es),
)

-- Closing the dialog forgets its token, on the screen and in the mutation: in whatever state it was
-- closed and whatever happens next, submissions and late answers included, each token that the dialog
-- holds came with an answer after that close.
pub dialog_run-CameWith :
    (d : TokenDialog) (es : List DialogEvent) → CameWith es (dialog_run es (dialog_step closed d).0)
unfolding dialog_step
dialog_run-CameWith d es =
    let (s, m) = run-Holds (Brought es) (inl refl) es _ (answers-Brought es) (inl refl, inl refl) in
    record { screen = s; mutation = m }
