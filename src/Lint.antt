-- ===== src/Lint.antt =====
-- studio/src/features/resources/lint.tsx: the two hooks that ask Studio about the steps and the
-- templates being edited, 400 ms after they stop changing. Both hooks are one machine here, with what
-- differs between them in a record: when the key counts as changed, what is asked about a key, what is
-- shown when nothing is asked, and what a reply shows.
pub mod Refine
pub mod Settle
pub mod Joined
pub mod Tests
use restitch_gateway.Prelude.{
  ℕ, zero, suc, Bool, true, false, not, ◌&&◌, Option, none, some, List, [], ◌∷◌, ◌++◌, Str, ◌==◌,
  ◌===◌, codes, if◌then◌else◌, get_elem?,
}
use restitch_gateway.Text.{contains, split}

-- The promise of a request: the data of a 2xx answer, an answer with no data, or a rejection.
pub data Reply (D : Type 0) : Type 0 where
  answered : D → Reply D
  refused : Reply D
  rejected : Reply D

pub record Check (K Q D A : Type 0) : Type 0 where
  pub same : K → K → Bool
  pub question : K → Option Q
  pub skip : A → A
  pub value : Reply D → A

pub data Stage : Type 0 where
  waiting cleared asked settled : Stage

-- One run of the effect: the key and the `live` flag that its timer and its promise close over.
pub record Run (K : Type 0) : Type 0 where
  pub key : K
  pub live : Bool
  pub stage : Stage

-- `current` is the run whose cleanup has not been called; `old` the runs before it. `sent` are the keys
-- that a request was sent for, the last one first.
pub record Hook (K A : Type 0) : Type 0 where
  pub deps : Option K
  pub current : Option (Run K)
  pub old : List (Run K)
  pub shown : A
  pub sent : List K

-- What React, the timers and the network do. `late_timer` and `late_reply` are those of an old run.
pub data Event (K D : Type 0) : Type 0 where
  rendered : K → Event K D
  timer : Event K D
  replied : Reply D → Event K D
  late_timer : ℕ → Event K D
  late_reply : ℕ → Reply D → Event K D
  unmounted : Event K D

-- `clearTimeout` of a timer that has fired does nothing.
abbrev pub clear : Stage → Stage
clear waiting = cleared
clear s = s

abbrev pub fire : Stage → Stage
fire waiting = asked
fire s = s

abbrev pub settle : Stage → Stage
settle asked = settled
settle s = s

abbrev pub is_waiting : Stage → Bool
is_waiting waiting = true
is_waiting _ = false

abbrev pub is_asked : Stage → Bool
is_asked asked = true
is_asked _ = false

abbrev pub set {ℓ} : {A : Type ℓ} → List A → ℕ → A → List A
set [] i v = []
set (x ∷ xs) zero v = v ∷ xs
set (x ∷ xs) (suc i) v = x ∷ set xs i v

module _ {K : Type 0} where
  abbrev pub clean : Run K → Run K
  clean r = record r { live = false; stage = clear r.stage }

  -- The timer sends the request, once.
  abbrev pub on_timer : Run K → List K → Run K × List K
  on_timer r sent =
      (record r { stage = fire r.stage }, if is_waiting r.stage then r.key ∷ sent else sent)

module _ {K Q D A : Type 0} (c : Check K Q D A) where
  abbrev pub on_reply : Reply D → Run K → A → Run K × A
  on_reply reply r shown = (
    record r { stage = settle r.stage },
    if is_asked r.stage && r.live then c.value reply else shown,
  )

  abbrev pub is_changed : Option K → K → Bool
  is_changed none k = true
  is_changed (some j) k = not (c.same j k)

  abbrev pub clean_run : Option (Run K) → Hook K A → Hook K A
  clean_run none h = h
  clean_run (some r) h = record h { current = none; old = clean r ∷ h.old }

  unfoldable pub cleanup : Hook K A → Hook K A
  cleanup h = clean_run h.current h

  -- The body of the effect: what is left to ask, or the early return.
  abbrev pub start_run : Option Q → K → Hook K A → Hook K A
  start_run none k h = record h { deps = some k; shown = c.skip h.shown }
  start_run (some q) k h = record h {
    deps = some k;
    current = some (record { key = k; live = true; stage = waiting });
  }

  unfoldable pub render : K → Hook K A → Hook K A
  render k h = if is_changed h.deps k then start_run (c.question k) k (cleanup h) else h

  abbrev pub time_current : Option (Run K) → Hook K A → Hook K A
  time_current none h = h
  time_current (some r) h = record h {
    current = some (on_timer r h.sent).0;
    sent = (on_timer r h.sent).1;
  }

  abbrev pub reply_current : Reply D → Option (Run K) → Hook K A → Hook K A
  reply_current reply none h = h
  reply_current reply (some r) h = record h {
    current = some (on_reply reply r h.shown).0;
    shown = (on_reply reply r h.shown).1;
  }

  abbrev pub time_old : ℕ → Option (Run K) → Hook K A → Hook K A
  time_old i none h = h
  time_old i (some r) h = record h {
    old = set h.old i (on_timer r h.sent).0;
    sent = (on_timer r h.sent).1;
  }

  abbrev pub reply_old : Reply D → ℕ → Option (Run K) → Hook K A → Hook K A
  reply_old reply i none h = h
  reply_old reply i (some r) h = record h {
    old = set h.old i (on_reply reply r h.shown).0;
    shown = (on_reply reply r h.shown).1;
  }

  unfoldable pub step : Event K D → Hook K A → Hook K A
  step (rendered k) h = render k h
  step timer h = time_current h.current h
  step (replied reply) h = reply_current reply h.current h
  step (late_timer i) h = time_old i (get_elem? h.old i) h
  step (late_reply i reply) h = reply_old reply i (get_elem? h.old i) h
  step unmounted h = cleanup h

  unfoldable pub run : List (Event K D) → Hook K A → Hook K A
  run [] h = h
  run (e ∷ es) h = run es (step e h)

abbrev pub mount : {K A : Type 0} → A → Hook K A
mount shown = record { deps = none; current = none; old = []; shown = shown; sent = [] }

-- What Studio's compiler reports: the inferred dependencies by step name, and a problem. An entry with
-- no `inferred` counts as one with an empty list.
pub record StepDeps : Type 0 where
  pub inferred : List (Str × List Str)
  pub problem : Str

abbrev pub no_deps : StepDeps
no_deps = record { inferred = []; problem = [] }

pub record DepsReport : Type 0 where
  pub steps : List (Str × Option (List Str))
  pub error : Str

unfoldable pub inferred_of : List (Str × Option (List Str)) → List (Str × List Str)
inferred_of [] = []
inferred_of ((name, none) ∷ rest) = (name, []) ∷ inferred_of rest
inferred_of ((name, some deps) ∷ rest) = (name, deps) ∷ inferred_of rest

unfoldable pub deps_of : Reply DepsReport → StepDeps
deps_of (answered r) = record { inferred = inferred_of r.steps; problem = r.error }
deps_of refused = no_deps
deps_of rejected = no_deps

abbrev pub same_key : Option Str → Option Str → Bool
same_key none none = true
same_key (some a) (some b) = a === b
same_key _ _ = false

-- `useStepDependencies`: the key is the JSON text of the steps, `none` for a resource without steps.
unfoldable pub step_dependencies : Check (Option Str) Str DepsReport StepDeps
step_dependencies = record { same = same_key; question = λ k. k; skip = λ d. d; value = deps_of }

-- `steps.join("\u0000")`.
unfoldable pub join_names : List Str → Str
join_names [] = []
join_names (x ∷ []) = x
join_names (x ∷ y ∷ rest) = x ++ (0 ∷ join_names (y ∷ rest))

unfoldable pub names_sent : Str → List Str
names_sent key = if key === [] then [] else split 0 key

-- The dependencies of the effect of `useTemplateLint` are the value, `isTemplate`, which the value
-- decides, and the joined step names.
pub record LintKey : Type 0 where
  pub text : Str
  pub step_key : Option Str

unfoldable pub lint_key : Str → Option (List Str) → LintKey
lint_key value none = record { text = value; step_key = none }
lint_key value (some steps) = record { text = value; step_key = some (join_names steps) }

pub record LintQuestion : Type 0 where
  pub template : Str
  pub steps : List Str

unfoldable pub lint_question : LintKey → Option LintQuestion
lint_question k = elim k.step_key [
  | none ↦ none
  | some key ↦
      if contains k.text (codes "{{")
      then some (record { template = k.text; steps = names_sent key })
      else none
]

abbrev first_error : List Str → Str
first_error [] = []
first_error (e ∷ es) = e

unfoldable pub error_of : Reply (Option (List Str)) → Str
error_of (answered (some errors)) = first_error errors
error_of _ = []

abbrev pub same_lint : LintKey → LintKey → Bool
same_lint a b = a.text === b.text && same_key a.step_key b.step_key

unfoldable pub template_lint : Check LintKey LintQuestion (Option (List Str)) Str
template_lint = record {
  same = same_lint;
  question = lint_question;
  skip = λ e. [];
  value = error_of;
}
