-- ===== src/Workflows/Outcome.antt =====
-- What the steps of a run leave, and the status that the run ends with
-- (astra/workflows/engine.py).
use astra_ai_agent.Prelude.{ℕ, Bool, true, false, ◌||◌, List, [], ◌∷◌, Option, some, if◌then◌else◌}
use astra_ai_agent.Prelude.Text.{Text, codes}
use astra_ai_agent.Prelude.Json.{Json, flag, text, Fields, no_fields, field, get_field, truthy}
use astra_ai_agent.Workflows.Definitions.{
  RunStatus, paused, completed, failed, cancelled, WorkflowRun, WorkflowEvent, workflow_completed,
  workflow_failed, task_completed, task_failed, Engine,
}
use astra_ai_agent.Workflows.Resolve.{Results}
use astra_ai_agent.Workflows.Runs.{emit_event}

-- What `registry.execute` comes to: a question for confirmation with its reason, a reply, or an
-- exception with its text. The reply and the reason are values that JSON can hold: any other value
-- makes the dump of the results at the end of the run raise.
pub data Executed : Type 0 where
  asks : Json → Executed
  replies : Bool → Json → Executed
  raises : Text → Executed

-- What the step leaves in the results.
unfoldable pub outcome_fields : Executed → Fields
outcome_fields (asks reason) =
    field (codes "blocked") (flag true) (field (codes "reason") reason no_fields)
outcome_fields (replies ok output) =
    field (codes "ok") (flag ok) (field (codes "output") output no_fields)
outcome_fields (raises error) =
    field (codes "ok") (flag false) (field (codes "error") (text error) no_fields)

unfoldable pub skipped_fields : Fields
skipped_fields =
    field (codes "skipped") (flag true)
      (field (codes "reason") (text (codes "condition false")) no_fields)

unfoldable pub is_false : Json → Bool
is_false (flag false) = true
is_false _ = false

-- `res.get("error") or res.get("blocked") or res.get("ok") is False`
unfoldable pub has_failed : Fields → Bool
unfolding truthy get_field is_false
has_failed fs =
    truthy (get_field (codes "error") fs)
    || truthy (get_field (codes "blocked") fs)
    || is_false (get_field (codes "ok") fs)

unfoldable pub failed_steps : Results → List Text
unfolding has_failed
failed_steps [] = []
failed_steps ((k, fs) ∷ rs) = let rest = failed_steps rs in if has_failed fs then k ∷ rest else rest

unfoldable pub step_event : Executed → ℕ → Text → WorkflowEvent
step_event (asks reason) k sid = task_failed k sid
step_event (replies true output) k sid = task_completed k sid
step_event (replies false output) k sid = task_failed k sid
step_event (raises error) k sid = task_failed k sid

-- The status that the run ends with.
unfoldable pub end_status : Option RunStatus → List Text → RunStatus
end_status (some paused) failures = paused
end_status (some cancelled) failures = cancelled
end_status _ [] = completed
end_status _ (_ ∷ _) = failed

unfoldable pub end_event : RunStatus → ℕ → Engine → Engine
unfolding emit_event
end_event completed k e = emit_event (workflow_completed k) e
end_event failed k e = emit_event (workflow_failed k) e
end_event _ k e = e

unfoldable pub current : Text → WorkflowRun → WorkflowRun
current sid r = record r { current_step = sid }
