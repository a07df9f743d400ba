-- ===== src/Workflows/Definitions/Updates.antt =====
-- `update_definition` and `delete_definition` of astra/workflows/engine.py.
use astra_ai_agent.Prelude.{ℕ, Bool, not, List, [], ◌∷◌, Option, none, some, ◌==◌, if◌then◌else◌}
use astra_ai_agent.Prelude.Text.{Text, strip, text_eq}
use astra_ai_agent.Prelude.Json.{Json, null, Fields}
use astra_ai_agent.Workflows.Steps.{accepted, refused, Step, normalize_steps}
use astra_ai_agent.Workflows.Definitions.{
  Definition, Engine, Registry, Result, WorkflowRun, check_tools, done, duplicate_name,
  get_definition, invalid, name_required, name_taken, raised, unique_name, workflow_not_found,
}

-- The arguments of `update_definition`; `none`, and `null` for the steps, leave a field alone.
pub record Changes : Type 0 where
  pub name : Option Text
  pub description : Option Text
  pub steps : Json
  pub layout : Option Fields
  pub enabled : Option Bool
  pub uniquify : Bool

unfoldable pub given {ℓ} : {A : Type ℓ} → Option A → A → A
given none a = a
given (some b) a = b

-- The name that the definition `d` gets.
unfoldable pub renamed : Bool → List Definition → Definition → Text → Result Text
unfolding name_taken unique_name
renamed uniquify ds d new_name =
    if text_eq new_name []
    then raised name_required
    else if text_eq new_name d.name
    then done d.name
    else if not (name_taken (some d.id) ds new_name)
    then done new_name
    else if uniquify
    then done (unique_name (some d.id) ds new_name)
    else raised (duplicate_name new_name)

unfoldable pub new_name_of : Changes → List Definition → Definition → Result Text
unfolding renamed
new_name_of c ds d = elim c.name [ none ↦ done d.name | some n ↦ renamed c.uniquify ds d (strip n) ]

unfoldable pub known_steps : Registry → List Step → Result (List Step)
unfolding check_tools
known_steps registry steps = elim (check_tools registry steps) [
  | some err ↦ raised err
  | none ↦ done steps
]

unfoldable pub new_steps_of : Registry → Json → Definition → Result (List Step)
unfolding known_steps
new_steps_of registry null d = done d.steps
new_steps_of registry v d = elim (normalize_steps v) [
  | refused why ↦ raised (invalid why)
  | accepted steps ↦ known_steps registry steps
]

-- The `UPDATE` of the row.
unfoldable pub write_definition : Definition → List Definition → List Definition
write_definition new [] = []
write_definition new (d ∷ ds) =
    let rest = write_definition new ds in if d.id == new.id then new ∷ rest else d ∷ rest

unfoldable pub changed : Changes → Definition → Text → List Step → Definition
unfolding given
changed c d name steps = record d {
  name = name;
  description = given c.description d.description;
  steps = steps;
  layout = given c.layout d.layout;
  enabled = given c.enabled d.enabled;
}

unfoldable pub update_found : Registry → Changes → Definition → Engine → Engine × Result {0} Unit
unfolding new_name_of new_steps_of write_definition changed
update_found registry c d e = elim (new_name_of c e.definitions d) [
  | raised err ↦ (e, raised err)
  | done name ↦ elim (new_steps_of registry c.steps d) [
    | raised err ↦ (e, raised err)
    | done steps ↦ (
      record e { definitions = write_definition (changed c d name steps) e.definitions },
      done tt,
    )
  ]
]

unfoldable pub update_definition : Registry → ℕ → Changes → Engine → Engine × Result {0} Unit
unfolding get_definition update_found
update_definition registry k c e = elim (get_definition k e.definitions) [
  | none ↦ (e, raised workflow_not_found)
  | some d ↦ update_found registry c d e
]

unfoldable pub drop_definition : ℕ → List Definition → List Definition
drop_definition k [] = []
drop_definition k (d ∷ ds) = let rest = drop_definition k ds in if d.id == k then rest else d ∷ rest

-- `ON DELETE CASCADE`
unfoldable pub drop_runs : ℕ → List WorkflowRun → List WorkflowRun
drop_runs k [] = []
drop_runs k (r ∷ rs) = let rest = drop_runs k rs in if r.workflow_id == k then rest else r ∷ rest

unfoldable pub delete_definition : ℕ → Engine → Engine × Result {0} Unit
unfolding get_definition drop_definition drop_runs
delete_definition k e = elim (get_definition k e.definitions) [
  | none ↦ (e, raised workflow_not_found)
  | some d ↦ (
    record e { definitions = drop_definition k e.definitions; runs = drop_runs k e.runs },
    done tt,
  )
]
