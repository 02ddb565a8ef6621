-- ===== src/Lint/Tests.antt =====
-- Runs of the two hooks of lint.tsx: an answer that comes late, and the names of a template's steps.
use restitch_gateway.Prelude.{
  ◌≡◌, ◌≢◌, refl, true, Option, none, some, List, [], ◌∷◌, Str, codes, ◌===◌,
}
use restitch_gateway.Text.{contains, index_of, index_from, starts_with}
use restitch_gateway.Lint.{
  Hook, Event, rendered, timer, replied, late_timer, late_reply, answered, StepDeps, no_deps,
  DepsReport, deps_of, inferred_of, is_changed, cleanup, render, step, run, mount,
  step_dependencies, template_lint, lint_key, lint_question, join_names, names_sent,
}
use restitch_gateway.Lint.Refine.{view, replay, run-mount_refines}
use restitch_gateway.Lint.Settle.{run_settles, settling}

abbrev old_steps : Option Str
old_steps = some (codes "[{}]")

abbrev new_steps : Option Str
new_steps = some (codes "[]")

abbrev old_report : DepsReport
old_report = record {
  steps = (codes "a", some (codes "b" ∷ [])) ∷ (codes "c", none) ∷ [];
  error = codes "x";
}

abbrev new_report : DepsReport
new_report = record { steps = []; error = codes "y" }

-- The old steps are asked about, then the steps change, and the answer about the old ones comes late.
abbrev before : List (Event (Option Str) DepsReport)
before = rendered old_steps ∷ timer ∷ rendered old_steps ∷ []

abbrev overtaken : List (Event (Option Str) DepsReport)
overtaken =
    rendered new_steps
    ∷ late_reply 0 (answered old_report)
    ∷ timer
    ∷ replied (answered new_report)
    ∷ late_timer 0
    ∷ []

abbrev hook : Hook (Option Str) StepDeps
hook = run step_dependencies before (mount no_deps)

overtaken_shows :
    (run step_dependencies overtaken hook).shown ≡ record { inferred = []; problem = codes "y" }
unfolding run step render cleanup step_dependencies deps_of inferred_of ◌===◌
overtaken_shows = refl

-- An answer in time: a step with no list gets an empty one.
in_time :
    (run step_dependencies (replied (answered old_report) ∷ []) hook).shown
    ≡ record { inferred = (codes "a", codes "b" ∷ []) ∷ (codes "c", []) ∷ []; problem = codes "x" }
unfolding run step render cleanup step_dependencies deps_of inferred_of ◌===◌
in_time = refl

run-mount_refines_example :
    view (run step_dependencies overtaken (mount no_deps))
    ≡ replay step_dependencies overtaken (view (mount no_deps))
run-mount_refines_example = run-mount_refines step_dependencies no_deps overtaken

steps_changed : is_changed step_dependencies hook.deps new_steps ≡ true
unfolding run step render cleanup step_dependencies ◌===◌
steps_changed = refl

steps_asked : step_dependencies.question new_steps ≡ some (codes "[]")
unfolding step_dependencies
steps_asked = refl

run_settles_example :
    let h' =
      run step_dependencies
        (settling step_dependencies new_steps
          (answered new_report)
          (late_reply 0 (answered old_report) ∷ [])
          []
          (late_timer 0 ∷ []))
        hook in
    (h'.shown ≡ step_dependencies.value (answered new_report)) × (h'.sent ≡ new_steps ∷ hook.sent)
run_settles_example =
    run_settles step_dependencies no_deps before new_steps (codes "[]") (answered new_report)
      (late_reply 0 (answered old_report) ∷ []) [] (late_timer 0 ∷ []) steps_changed steps_asked
      (refl, tt) tt (refl, tt)

abbrev template : Str
template = codes "{{ .a }}"

has_braces : contains template (codes "{{") ≡ true
unfolding contains index_of index_from starts_with
has_braces = refl

abbrev two_steps : List Str
two_steps = codes "a" ∷ codes "bc" ∷ []

two_differ : two_steps ≢ ([] ∷ [])
two_differ = λ e. cc

-- One step with an empty name is not sent: its key is that of no steps.
empty_name :
    template_lint.question (lint_key template (some ([] ∷ [])))
    ≡ some (record { template = template; steps = [] })
unfolding template_lint lint_question lint_key join_names names_sent contains index_of index_from
    starts_with ◌===◌
empty_name = refl
