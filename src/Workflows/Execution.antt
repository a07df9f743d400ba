-- ===== src/Workflows/Execution.antt =====
-- How astra/workflows/engine.py executes a run. The execution of a tool and Python's `str` of a
-- value are parameters; an execution changes a world of its own.
pub mod Finish
pub mod Completed
use astra_ai_agent.Prelude.{
  ℕ, zero, suc, Bool, true, false, ◌&&◌, ◌||◌, not, List, [], ◌∷◌, ◌++◌, Option, none, some, ltb,
  ◌==◌, length, take, if◌then◌else◌,
}
use astra_ai_agent.Prelude.Text.{Text, codes, text_eq, text_mem}
use astra_ai_agent.Prelude.Json.{
  Json, null, flag, text, object, Fields, no_fields, field, get_field, truthy,
}
use astra_ai_agent.Workflows.Graph.{Node, ids, topo}
use astra_ai_agent.Workflows.Steps.{Condition, Step, step_ids, nodes}
use astra_ai_agent.Workflows.Definitions.{
  Definition, RunStatus, created, running, paused, completed, failed, cancelled, WorkflowRun,
  WorkflowEvent, workflow_started, workflow_completed, workflow_failed, task_started,
  task_completed, task_failed, Engine, WorkflowError, workflow_not_found, run_not_found,
  no_workflow, foreign_key, steps_left_out, Result, done, raised, get_definition, find_definition,
}
use astra_ai_agent.Workflows.Resolve.{Results, find_result, put_result, resolve, condition_holds}
use astra_ai_agent.Workflows.Runs.{
  find_run, update_run, on_run, emit_event, insert_run, announce, create_run, with_status,
  set_status, is_ended, cancel_run, live_status, is_halted, meanwhile, Outside, end_row, Target,
  existing, by_id, by_name, neither,
}
use astra_ai_agent.Workflows.Outcome.{
  Executed, asks, current, end_event, end_status, failed_steps, has_failed, is_false,
  outcome_fields, raises, replies, skipped_fields, step_event,
}

unfoldable pub find_step : Text → List Step → Option Step
find_step k [] = none
find_step k (s ∷ ss) = if text_eq s.id k then some s else find_step k ss

-- The steps with the given identifiers.
unfoldable pub pick : List Text → List Step → List Step
unfolding find_step
pick [] steps = []
pick (k ∷ ks) steps =
    let rest = pick ks steps in elim (find_step k steps) [ some s ↦ s ∷ rest | none ↦ rest ]

-- `_topo` on whole steps. An identifier that comes twice has one step in the order, and `run`
-- refuses the steps then.
unfoldable pub ordered_steps : List Step → List Step
unfolding pick nodes topo
ordered_steps steps = pick (ids (topo (nodes steps))) steps

unfoldable pub missing_ids : List Text → List Text → List Text
missing_ids [] emitted = []
missing_ids (k ∷ ks) emitted =
    let rest = missing_ids ks emitted in if text_mem k emitted then rest else k ∷ rest

unfoldable pub is_cancelled : Option RunStatus → Bool
is_cancelled (some cancelled) = true
is_cancelled _ = false

-- The steps of the run's definition, and none if it is gone.
unfoldable pub stored_steps : ℕ → List Definition → List Step
unfolding get_definition
stored_steps k ds = elim (get_definition k ds) [ none ↦ [] | some d ↦ d.steps ]

unfoldable pub steps_or_stored : Option (List Step) → WorkflowRun → Engine → List Step
unfolding stored_steps
steps_or_stored (some steps) r e = steps
steps_or_stored none r e = stored_steps r.workflow_id e.definitions

pub record Progress {ℓ} (World : Type ℓ) : Type ℓ where
  pub engine : Engine
  pub world : World
  pub results : Results

unfoldable pub is_skipped : Option Condition → Results → Bool
unfolding condition_holds
is_skipped none results = false
is_skipped (some c) results = not (condition_holds c results)

module _ (show : Json → Text) where
  -- `info.get('error') or info.get('reason') or 'step failed'`
  unfoldable pub failure_reason : Fields → Text
  unfolding truthy get_field
  failure_reason fs = elim (truthy (get_field (codes "error") fs)) [
    | true ↦ show (get_field (codes "error") fs)
    | false ↦ elim (truthy (get_field (codes "reason") fs)) [
      | true ↦ show (get_field (codes "reason") fs)
      | false ↦ codes "step failed"
    ]
  ]

  unfoldable pub first_error : List Text → Results → Text
  unfolding find_result failure_reason
  first_error [] results = []
  first_error (sid ∷ _) results = elim (find_result sid results) [
    | none ↦ sid ++ codes ": step failed"
    | some fs ↦ sid ++ (codes ": " ++ failure_reason fs)
  ]

  unfoldable pub end_error : RunStatus → Results → Text
  unfolding first_error failed_steps
  end_error failed results = take 500 (first_error (failed_steps results) results)
  end_error _ results = []

  -- What is written when the loop is over.
  unfoldable pub end_run : ℕ → Results → Engine → Engine
  unfolding end_status end_event end_row on_run live_status failed_steps end_error
  end_run k results e =
      let status = end_status (live_status k e) (failed_steps results) in
      end_event status k (on_run k (end_row status (end_error status results) results) e)

module _ {ℓ} {World : Type ℓ} (show : Json → Text)
    (execute : World → Text → Fields → World × Executed) where
  -- What is written when the tool of the step `sid` came back.
  unfoldable pub record_step : ℕ → Text → Engine → Results → World × Executed → Progress World
  unfolding emit_event step_event outcome_fields put_result
  record_step k sid e results (world, out) = record {
    engine = emit_event (step_event out k sid) e;
    world = world;
    results = put_result sid (outcome_fields out) results;
  }

  -- The body of the loop over the steps, behind the look at the status.
  unfoldable pub run_step : ℕ → Fields → Step → Progress World → Progress World
  unfolding record_step is_skipped resolve emit_event on_run current put_result skipped_fields
  run_step k params s p = elim (is_skipped s.condition p.results) [
    | true ↦ record p { results = put_result s.id skipped_fields p.results }
    | false ↦
        record_step k s.id (emit_event (task_started k s.id) (on_run k (current s.id) p.engine))
          p.results (execute p.world s.tool (resolve show p.results params s.params))
  ]

  -- The loop: `outside n` is what other threads did to the row before the n-th look, one after
  -- the other.
  unfoldable pub run_loop :
      (ℕ → List Outside) → ℕ → Fields → ℕ → List Step → Progress World → Progress World
  unfolding run_step meanwhile is_halted live_status
  run_loop outside k params n [] p = p
  run_loop outside k params n (s ∷ ss) p =
      let e = meanwhile (outside n) k p.engine in
      elim (is_halted (live_status k e)) [
        | true ↦ record p { engine = e }
        | false ↦
            run_loop outside k params (suc n) ss (run_step k params s (record p { engine = e }))
      ]

  -- The loop, and the end, for the steps in their order.
  unfoldable pub run_ordered :
      (ℕ → List Outside) → ℕ → Fields → List Step → Engine → World → Engine × World
  unfolding run_loop end_run meanwhile
  run_ordered outside k params ordered e world =
      let p =
        run_loop outside k params 0 ordered (record { engine = e; world = world; results = [] }) in
      (end_run show k p.results (meanwhile (outside (length ordered)) k p.engine), p.world)

  -- `run` behind the look at a cancelled run.
  unfoldable pub run_started :
      (ℕ → List Outside) → ℕ → Fields → List Step → Engine → World → Engine × World × Result ℕ
  unfolding set_status ordered_steps missing_ids step_ids run_ordered
  run_started outside k params steps e world =
      let ordered = ordered_steps steps in
      let started = set_status k running [] e in
      elim (ltb (length ordered) (length steps)) [
        | true ↦ (
          started,
          world,
          raised (steps_left_out (missing_ids (step_ids steps) (step_ids ordered))),
        )
        | false ↦
            let ended = run_ordered outside k params ordered started world in
            (ended.0, ended.1, done k)
      ]

  -- `run` for a run with its row, and steps.
  unfoldable pub execute_run :
      (ℕ → List Outside) → WorkflowRun → List Step → Engine → World → Engine × World × Result ℕ
  unfolding is_cancelled live_status run_started
  execute_run outside r steps e world = elim (is_cancelled (live_status r.id e)) [
    | true ↦ (e, world, done r.id)
    | false ↦ run_started outside r.id r.params steps e world
  ]

  unfoldable pub run_found :
      (ℕ → List Outside)
      → Option (List Step)
      → Option WorkflowRun
      → Engine
      → World
      → Engine × World × Result ℕ
  unfolding execute_run steps_or_stored
  run_found outside steps none e world = (e, world, raised run_not_found)
  run_found outside steps (some r) e world =
      execute_run outside r (steps_or_stored steps r e) e world

  unfoldable pub run_created :
      (ℕ → List Outside)
      → Option (List Step)
      → Engine × Result ℕ
      → World
      → Engine × World × Result ℕ
  unfolding run_found find_run
  run_created outside steps (e, raised err) world = (e, world, raised err)
  run_created outside steps (e, done k) world = run_found outside steps (find_run k e.runs) e world

  -- A run of no definition: the row is inserted under the definition 0.
  unfoldable pub run_adhoc :
      (ℕ → List Outside)
      → Text
      → Fields
      → Option (List Step)
      → Engine
      → World
      → Engine × World × Result ℕ
  unfolding insert_run run_created
  run_adhoc outside name params none e world = (e, world, raised no_workflow)
  run_adhoc outside name params (some steps) e world =
      run_created outside (some steps) (insert_run 0 name params e) world

  -- How `run` is called: for a run, for a definition by its identifier or its name, or for neither.
  -- (An identifier 0 and an empty name are `neither` to the source.)
  unfoldable pub run_workflow :
      (ℕ → List Outside)
      → Target
      → Fields
      → Option (List Step)
      → Engine
      → World
      → Engine × World × Result ℕ
  unfolding find_run execute_run steps_or_stored run_adhoc create_run run_created find_definition
  run_workflow outside (existing k) params steps e world = elim (find_run k e.runs) [
    | some r ↦ execute_run outside r (steps_or_stored steps r e) e world
    | none ↦ run_adhoc outside (codes "adhoc") params steps e world
  ]
  run_workflow outside (by_id k) params steps e world =
      run_created outside steps (create_run k params e) world
  run_workflow outside (by_name name) params steps e world =
      elim (find_definition name e.definitions) [
        | some d ↦ run_created outside steps (create_run d.id params e) world
        | none ↦ run_adhoc outside name params steps e world
      ]
  run_workflow outside neither params steps e world =
      run_adhoc outside (codes "adhoc") params steps e world
