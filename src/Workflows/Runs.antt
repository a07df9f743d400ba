-- ===== src/Workflows/Runs.antt =====
-- The runs of astra/workflows/engine.py. Other threads act on a
-- run before each look at its status.
use astra_ai_agent.Prelude.{
  ℕ, suc, Bool, true, false, List, [], ◌∷◌, ◌++◌, Option, none, some, ◌==◌, if◌then◌else◌,
}
use astra_ai_agent.Prelude.Text.{Text}
use astra_ai_agent.Prelude.Json.{Fields}
use astra_ai_agent.Workflows.Definitions.{
  RunStatus, created, paused, completed, failed, cancelled, WorkflowRun, WorkflowEvent,
  workflow_started, Engine, workflow_not_found, run_not_found, foreign_key, Result, done, raised,
  get_definition,
}
use astra_ai_agent.Workflows.Definitions.Updates.{delete_definition}
use astra_ai_agent.Workflows.Resolve.{Results}

unfoldable pub find_run : ℕ → List WorkflowRun → Option WorkflowRun
find_run k [] = none
find_run k (r ∷ rs) = if r.id == k then some r else find_run k rs

unfoldable pub update_run : ℕ → (WorkflowRun → WorkflowRun) → List WorkflowRun → List WorkflowRun
update_run k f [] = []
update_run k f (r ∷ rs) = let rest = update_run k f rs in (if r.id == k then f r else r) ∷ rest

unfoldable pub on_run : ℕ → (WorkflowRun → WorkflowRun) → Engine → Engine
unfolding update_run
on_run k f e = record e { runs = update_run k f e.runs }

unfoldable pub emit_event : WorkflowEvent → Engine → Engine
emit_event ev e = record e { events = e.events ++ ev ∷ [] }

-- The `INSERT` into `workflow_runs`, whose definition must exist.
unfoldable pub insert_run : ℕ → Text → Fields → Engine → Engine × Result ℕ
unfolding get_definition
insert_run workflow_id name params e = elim (get_definition workflow_id e.definitions) [
  | none ↦ (e, raised foreign_key)
  | some d ↦ (
    record e {
      runs =
          e.runs
          ++ (record {
            id = e.next_run;
            workflow_id = workflow_id;
            name = name;
            status = created;
            current_step = [];
            params = params;
            results = [];
            error = [];
          })
            ∷ [];
      next_run = suc e.next_run;
    },
    done e.next_run,
  )
]

unfoldable pub announce : Engine × Result ℕ → Engine × Result ℕ
unfolding emit_event
announce (e, done k) = (emit_event (workflow_started k) e, done k)
announce (e, raised err) = (e, raised err)

unfoldable pub create_run : ℕ → Fields → Engine → Engine × Result ℕ
unfolding get_definition insert_run announce
create_run workflow_id params e = elim (get_definition workflow_id e.definitions) [
  | none ↦ (e, raised workflow_not_found)
  | some d ↦ announce (insert_run workflow_id d.name params e)
]

unfoldable pub with_status : RunStatus → Text → WorkflowRun → WorkflowRun
with_status status error r = record r { status = status; error = error }

unfoldable pub set_status : ℕ → RunStatus → Text → Engine → Engine
unfolding on_run with_status
set_status k status error = on_run k (with_status status error)

unfoldable pub is_ended : RunStatus → Bool
is_ended completed = true
is_ended failed = true
is_ended cancelled = true
is_ended _ = false

unfoldable pub cancel_run : ℕ → Engine → Engine × Result {0} Unit
unfolding find_run is_ended set_status
cancel_run k e = elim (find_run k e.runs) [
  | none ↦ (e, raised run_not_found)
  | some r ↦ elim (is_ended r.status) [
    | true ↦ (e, done tt)
    | false ↦ (set_status k cancelled [] e, done tt)
  ]
]

-- `(self.get_run(k) or {}).get("status")`
unfoldable pub live_status : ℕ → Engine → Option RunStatus
unfolding find_run
live_status k e = elim (find_run k e.runs) [ none ↦ none | some r ↦ some r.status ]

unfoldable pub is_halted : Option RunStatus → Bool
is_halted (some paused) = true
is_halted (some cancelled) = true
is_halted _ = false

-- What `run` is called for.
pub data Target : Type 0 where
  existing by_id : ℕ → Target
  by_name : Text → Target
  neither : Target

-- What another thread does to the row of the run: `cancel_run`; `set_status`, to pause it or to
-- resume it, also at the start of a second `run` for it; the end of that second `run`; the deletion
-- of a definition, which takes its runs along.
pub data Outside : Type 0 where
  cancels : Outside
  sets : RunStatus → Text → Outside
  ends : RunStatus → Text → Results → Outside
  deletes : ℕ → Outside

unfoldable pub end_row : RunStatus → Text → Results → WorkflowRun → WorkflowRun
end_row status error results r = record r { status = status; error = error; results = results }

unfoldable pub act : Outside → ℕ → Engine → Engine
unfolding cancel_run set_status delete_definition on_run end_row
act cancels k e = (cancel_run k e).0
act (sets status error) k e = set_status k status error e
act (ends status error results) k e = on_run k (end_row status error results) e
act (deletes workflow_id) k e = (delete_definition workflow_id e).0

unfoldable pub meanwhile : List Outside → ℕ → Engine → Engine
unfolding act
meanwhile [] k e = e
meanwhile (o ∷ os) k e = meanwhile os k (act o k e)
