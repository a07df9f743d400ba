-- ===== src/Workflows/Definitions.antt =====
-- The stored definitions of astra/workflows/engine.py. The tables are lists of rows in the order of
-- their insertion; a row keeps its steps as values, without the detour over JSON text, and no
-- times. An identifier is a number, since `_as_id` has converted it.
pub mod Updates
pub mod Unique
pub mod Calls
use astra_ai_agent.Prelude.{
  ℕ, suc, ◌+◌, Bool, true, false, ◌&&◌, ◌||◌, not, List, [], ◌∷◌, ◌++◌, Option, none, some, ◌==◌,
  length, if◌then◌else◌,
}
use astra_ai_agent.Prelude.Text.{Text, codes, lower, strip, text_eq, text_mem}
use astra_ai_agent.Prelude.Json.{Json, null, Fields}
use astra_ai_agent.Workflows.Names.{decimal, first_free}
use astra_ai_agent.Workflows.Steps.{
  InvalidDefinition, Checked, accepted, refused, Step, normalize_steps,
}

-- A row of `workflow_definitions`.
pub record Definition : Type 0 where
  pub id : ℕ
  pub name : Text
  pub description : Text
  pub steps : List Step
  pub layout : Fields
  pub enabled : Bool

-- WORKFLOW_STATUSES
pub data RunStatus : Type 0 where
  created running paused completed failed cancelled : RunStatus

-- A row of `workflow_runs`; `results` holds what each step left, in the order of the steps.
pub record WorkflowRun : Type 0 where
  pub id : ℕ
  pub workflow_id : ℕ
  pub name : Text
  pub status : RunStatus
  pub current_step : Text
  pub params : Fields
  pub results : List (Text × Fields)
  pub error : Text

-- What is emitted, with the run and the step.
pub data WorkflowEvent : Type 0 where
  workflow_started workflow_completed workflow_failed : ℕ → WorkflowEvent
  task_started task_completed task_failed : ℕ → Text → WorkflowEvent

-- The two tables with their next identifiers, and the events.
pub record Engine : Type 0 where
  pub definitions : List Definition
  pub next_definition : ℕ
  pub runs : List WorkflowRun
  pub next_run : ℕ
  pub events : List WorkflowEvent

-- The exceptions. `foreign_key` is the database's, for a run of a definition that does not exist.
pub data WorkflowError : Type 0 where
  invalid : InvalidDefinition → WorkflowError
  name_required : WorkflowError
  unknown_tool : Text → Text → WorkflowError
  duplicate_name : Text → WorkflowError
  workflow_not_found run_not_found no_workflow foreign_key : WorkflowError
  steps_left_out : List Text → WorkflowError

pub data Result {ℓ} (A : Type ℓ) : Type ℓ where
  done : A → Result A
  raised : WorkflowError → Result A

-- The names of the registered tools; `none` when there is no registry.
abbrev pub Registry : Type 0
Registry = Option (List Text)

unfoldable pub unknown_step : List Text → List Step → Option WorkflowError
unknown_step tools [] = none
unknown_step tools (s ∷ ss) =
    let rest = unknown_step tools ss in
    if text_mem s.tool tools then rest else some (unknown_tool s.id s.tool)

unfoldable pub check_tools : Registry → List Step → Option WorkflowError
unfolding unknown_step
check_tools none steps = none
check_tools (some tools) steps = unknown_step tools steps

unfoldable pub is_excluded : Option ℕ → ℕ → Bool
is_excluded none k = false
is_excluded (some e) k = e == k

unfoldable pub name_taken : Option ℕ → List Definition → Text → Bool
unfolding is_excluded
name_taken exclude [] name = false
name_taken exclude (d ∷ ds) name =
    (text_eq d.name name && not (is_excluded exclude d.id)) || name_taken exclude ds name

unfoldable pub numbered_name : Text → ℕ → Text
numbered_name base n = base ++ (codes " " ++ decimal n)

-- One more name is tried than there are definitions.
unfoldable pub unique_name : Option ℕ → List Definition → Text → Text
unfolding name_taken numbered_name first_free
unique_name exclude ds base =
    if name_taken exclude ds base
    then first_free (name_taken exclude ds) (numbered_name base) (suc (length ds)) 2
    else base

unfoldable pub get_definition : ℕ → List Definition → Option Definition
get_definition k [] = none
get_definition k (d ∷ ds) = if d.id == k then some d else get_definition k ds

unfoldable pub find_definition : Text → List Definition → Option Definition
find_definition name [] = none
find_definition name (d ∷ ds) =
    if text_eq (lower d.name) (lower name) then some d else find_definition name ds

-- The arguments of `define`.
pub record NewDefinition : Type 0 where
  pub name : Text
  pub description : Text
  pub steps : Json
  pub layout : Fields
  pub uniquify : Bool

unfoldable pub insert_definition : NewDefinition → Text → List Step → Engine → Engine
insert_definition new final steps e = record e {
  definitions =
      e.definitions
      ++ (record {
        id = e.next_definition;
        name = final;
        description = new.description;
        steps = steps;
        layout = new.layout;
        enabled = true;
      })
        ∷ [];
  next_definition = suc e.next_definition;
}

-- What is left to do for a name and steps that are in order.
unfoldable pub define_as : NewDefinition → Text → List Step → Engine → Engine × Result ℕ
unfolding unique_name name_taken insert_definition
define_as new name steps e = elim new.uniquify [
  | true ↦
      (insert_definition new (unique_name none e.definitions name) steps e, done e.next_definition)
  | false ↦ elim (name_taken none e.definitions name) [
    | true ↦ (e, raised (duplicate_name name))
    | false ↦ (insert_definition new name steps e, done e.next_definition)
  ]
]

unfoldable pub define_steps :
    Registry → NewDefinition → Text → List Step → Engine → Engine × Result ℕ
unfolding check_tools define_as
define_steps registry new name steps e = elim (check_tools registry steps) [
  | some err ↦ (e, raised err)
  | none ↦ define_as new name steps e
]

-- `define`: the identifier of the new row, or an error.
unfoldable pub define : Registry → NewDefinition → Engine → Engine × Result ℕ
unfolding define_steps
define registry new e = elim (text_eq (strip new.name) []) [
  | true ↦ (e, raised name_required)
  | false ↦ elim (normalize_steps new.steps) [
    | refused why ↦ (e, raised (invalid why))
    | accepted steps ↦ define_steps registry new (strip new.name) steps e
  ]
]
