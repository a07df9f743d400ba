-- ===== src/Workflows/Execution/Completed.antt =====
-- The row of a run when `run` returns.
use astra_ai_agent.Prelude.{
  ℕ, ◌≡◌, ◌⊎◌, refl, sym, ap, ◌∙◌, true, List, [], ◌++◌, Option, none, some, arith,
}
use astra_ai_agent.Prelude.Text.{Text}
use astra_ai_agent.Prelude.Json.{Json}
use astra_ai_agent.Workflows.Definitions.{
  RunStatus, created, running, paused, completed, failed, cancelled, WorkflowRun, Engine,
}
use astra_ai_agent.Workflows.Runs.{find_run, on_run, with_status, set_status, live_status, Outside}
use astra_ai_agent.Workflows.Execution.{is_cancelled}
use astra_ai_agent.Workflows.Outcome.{failed_steps}
use astra_ai_agent.Workflows.Execution.Finish.{keys, any_lifts, on_found, find_run-update_run}

on_found_inv :
    (f : WorkflowRun → WorkflowRun) (o : Option WorkflowRun) {row : WorkflowRun}
    → on_found f o ≡ some row
    → (r : WorkflowRun) × (o ≡ some r) × (f r ≡ row)
on_found_inv f none h = absurd (ground arith)
on_found_inv f (some r) h = (r, refl, cc)

started_row :
    (k : ℕ) (e : Engine) {row : WorkflowRun}
    → find_run k (set_status k running [] e).runs ≡ some row
    → row.status ≡ running
unfolding set_status on_run with_status
started_row k e h =
    let (r, found, same) =
      on_found_inv (with_status running []) (find_run k e.runs)
        (sym (find_run-update_run k (with_status running []) (λ r. refl) e.runs) ∙ h) in
    sym (ap (λ x. x.status) same)

live_status-found :
    (k : ℕ) (e : Engine) {row : WorkflowRun}
    → find_run k e.runs ≡ some row
    → live_status k e ≡ some row.status
unfolding live_status
live_status-found k e h = rw (live_status, h) refl

cancelled-row :
    (live : Option RunStatus) (s : RunStatus)
    → is_cancelled live ≡ true
    → live ≡ some s
    → s ≡ cancelled
unfolding is_cancelled
cancelled-row live cancelled c h = refl
cancelled-row live created c h = absurd (ground (arith, c, h))
cancelled-row live running c h = absurd (ground (arith, c, h))
cancelled-row live paused c h = absurd (ground (arith, c, h))
cancelled-row live completed c h = absurd (ground (arith, c, h))
cancelled-row live failed c h = absurd (ground (arith, c, h))

-- What the row of a run tells when the loop is over, behind whose last look the other threads did
-- `late`.
abbrev pub Accounted : List Outside → List Text → WorkflowRun → Type 0
Accounted late all row =
    (rest : List Text) × (keys row.results ++ rest ≡ all)
    × (row.status ≡ completed
        → ((rest ≡ []) ⊎ (any_lifts late ≡ true)) × (failed_steps row.results ≡ []))
