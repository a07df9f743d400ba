-- ===== src/Workflows/Tests.antt =====
-- Workflows at concrete steps, and their theorems there.
use astra_ai_agent.Prelude.{
  ℕ, zero, ◌≡◌, refl, true, false, not, List, [], ◌∷◌, ◌++◌, none, some, ltb, length, if◌then◌else◌,
  ◌==◌,
}
use astra_ai_agent.Prelude.Text.{Text, codes, strip, text_eq, text_mem}
use astra_ai_agent.Prelude.Json.{
  Json, null, flag, text, array, object, no_elements, element, Fields, no_fields, field,
}
use astra_ai_agent.Workflows.Graph.{Node, ids, known_deps, check_cycles, topo}
use astra_ai_agent.Workflows.Graph.Sets.{Within}
use astra_ai_agent.Workflows.Graph.Walk.{is_over, is_finished}
use astra_ai_agent.Workflows.Graph.Acyclic.{check_cycles_ends, check_cycles-topo}
use astra_ai_agent.Workflows.Graph.Emitted.{topo_order}
use astra_ai_agent.Workflows.Names.{decimal}
use astra_ai_agent.Workflows.Steps.{accepted, op_ok, Step, normalize_steps}
use astra_ai_agent.Workflows.Steps.Sound.{IsWellFormed, normalize_steps-IsWellFormed}
use astra_ai_agent.Workflows.Definitions.{
  created, running, paused, completed, WorkflowRun, Definition, Engine, done, raised, foreign_key,
  Registry, check_tools, name_taken, NewDefinition, define,
}
use astra_ai_agent.Workflows.Definitions.Updates.{Changes}
use astra_ai_agent.Workflows.Definitions.Calls.{
  Call, defining, updating, calls, IsConsistent, calls-IsConsistent, define-uniquify,
}
use astra_ai_agent.Workflows.Runs.{find_run, create_run, Outside, sets, neither}
use astra_ai_agent.Workflows.Execution.{execute_run, run_workflow}
use astra_ai_agent.Workflows.Outcome.{Executed, replies}

abbrev a : Text
a = codes "a"

abbrev b : Text
b = codes "b"

abbrev c : Text
c = codes "c"

abbrev chain : List Node
chain =
    (record { id = c; depends_on = a ∷ b ∷ [] })
    ∷ (record { id = b; depends_on = a ∷ [] })
    ∷ (record { id = a; depends_on = [] })
    ∷ []

abbrev ring : List Node
ring = (record { id = a; depends_on = b ∷ [] }) ∷ (record { id = b; depends_on = a ∷ [] }) ∷ []

test_chain : ids (topo chain) ≡ a ∷ b ∷ c ∷ []
unfolding topo text_mem text_eq
test_chain = refl

test_ring : length (topo ring) ≡ zero
unfolding topo text_mem text_eq
test_ring = refl

test_decimal : decimal 2047 ≡ codes "2047"
unfolding decimal
test_decimal = refl

check_cycles_ends_example : is_over (check_cycles ring) ≡ true
check_cycles_ends_example = check_cycles_ends ring

check_cycles-topo_example :
    is_finished (check_cycles chain) ≡ not (ltb (length (topo chain)) (length chain))
unfolding text_mem text_eq
check_cycles-topo_example = check_cycles-topo chain (refl, (refl, (refl, tt)))

topo_order_example : Within (a ∷ b ∷ []) (a ∷ b ∷ [])
unfolding text_mem text_eq topo known_deps
topo_order_example =
    topo_order chain
      ((record { id = a; depends_on = [] }) ∷ (record { id = b; depends_on = a ∷ [] }) ∷ []) []
      (record { id = c; depends_on = a ∷ b ∷ [] }) (refl, (refl, (refl, tt))) refl

abbrev first_raw : Fields
first_raw = field (codes "tool") (text (codes " clock ")) no_fields

abbrev second_raw : Fields
second_raw = field (codes "id") (text b) (
    field (codes "tool") (text (codes "mail")) (
      field (codes "depends_on") (text (codes "step2")) (
        field (codes "if") (object (field (codes "step") (text (codes "step2")) no_fields)) (
          field (codes "params")
            (object (field (codes "body") (text (codes "at {{ step2.output }}.")) no_fields))
            no_fields))))

abbrev raw_steps : Json
raw_steps = array (element (object second_raw) (element (object first_raw) no_elements))

abbrev mail_step : Step
mail_step = record {
  id = b;
  tool = codes "mail";
  params = field (codes "body") (text (codes "at {{ step2.output }}.")) no_fields;
  depends_on = codes "step2" ∷ [];
  condition = some (record { step = codes "step2"; op = op_ok });
  name = none;
}

abbrev clock_step : Step
clock_step = record {
  id = codes "step2";
  tool = codes "clock";
  params = no_fields;
  depends_on = [];
  condition = none;
  name = none;
}

abbrev two_steps : List Step
two_steps = mail_step ∷ clock_step ∷ []

test_normalize : normalize_steps raw_steps ≡ accepted two_steps
unfolding normalize_steps text_eq strip text_mem decimal
test_normalize = refl

normalize_steps-IsWellFormed_example : IsWellFormed two_steps
normalize_steps-IsWellFormed_example = normalize_steps-IsWellFormed raw_steps test_normalize

abbrev report : NewDefinition
report = record {
  name = codes " report ";
  description = [];
  steps = raw_steps;
  layout = no_fields;
  uniquify = true;
}

abbrev rename : Changes
rename = record {
  name = some (codes "report 2");
  description = none;
  steps = null;
  layout = none;
  enabled = some false;
  uniquify = true;
}

abbrev empty_engine : Engine
empty_engine = record {
  definitions = [];
  next_definition = 1;
  runs = [];
  next_run = 1;
  events = [];
}

abbrev tools : Registry
tools = some (codes "clock" ∷ codes "mail" ∷ [])

abbrev one_definition : Engine
one_definition = record empty_engine {
  definitions =
      (record {
        id = 1;
        name = codes "report";
        description = [];
        steps = two_steps;
        layout = no_fields;
        enabled = true;
      })
      ∷ [];
  next_definition = 2;
}

test_define : (define tools report empty_engine).0 ≡ one_definition
unfolding define normalize_steps text_eq strip text_mem decimal
test_define = refl

abbrev three_calls : List Call
three_calls = defining tools report ∷ defining tools report ∷ updating tools 1 rename ∷ []

calls-IsConsistent_example : IsConsistent (calls three_calls empty_engine)
calls-IsConsistent_example = calls-IsConsistent three_calls empty_engine tt

define-uniquify_example :
    (row : Definition) × ((define tools report one_definition).0.definitions
      ≡ one_definition.definitions ++ row ∷ [])
    × ((define tools report one_definition).1 ≡ done row.id)
    × (row.id ≡ one_definition.next_definition)
    × (row.steps ≡ two_steps)
    × (name_taken none one_definition.definitions row.name ≡ false)
    × (name_taken none one_definition.definitions (codes "report") ≡ false
        → row.name ≡ codes "report")
unfolding normalize_steps text_eq strip text_mem decimal check_tools
define-uniquify_example = define-uniquify tools report one_definition refl refl refl refl

-- The tools that are called, with their parameters; a mail that names the time is sent.
abbrev World : Type 0
World = List (Text × Fields)

abbrev show : Json → Text
show (text t) = t
show _ = []

abbrev reply_of : World → Text → Fields → World × Executed
reply_of world tool params = (
  world ++ (tool, params) ∷ [],
  elim (text_eq tool (codes "clock")) [
    | true ↦ replies true (text (codes "noon"))
    | false ↦ replies true null
  ],
)

abbrev undisturbed : ℕ → List Outside
undisturbed n = []

abbrev with_run : Engine
with_run = (create_run 1 no_fields one_definition).0

abbrev new_run : WorkflowRun
new_run = record {
  id = 1;
  workflow_id = 1;
  name = codes "report";
  status = created;
  current_step = [];
  params = no_fields;
  results = [];
  error = [];
}

abbrev ended_run : WorkflowRun
ended_run = record new_run {
  status = completed;
  current_step = b;
  results =
      (
        codes "step2",
        field (codes "ok") (flag true) (field (codes "output") (text (codes "noon")) no_fields),
      )
      ∷ (b, field (codes "ok") (flag true) (field (codes "output") null no_fields))
      ∷ [];
}

test_calls :
    (execute_run show reply_of undisturbed new_run two_steps with_run []).1
    ≡ (codes "clock", no_fields)
      ∷ (codes "mail", field (codes "body") (text (codes "at noon.")) no_fields)
      ∷ []
unfolding execute_run create_run text_mem text_eq
test_calls = refl

-- A run of steps without a definition is refused by the database.
test_adhoc :
    (run_workflow show reply_of undisturbed neither no_fields (some two_steps) one_definition []).2
    ≡ raised foreign_key
unfolding run_workflow
test_adhoc = refl

-- The run is paused before its second step and resumed before the last look: it is completed without
-- that step.
abbrev paused_once : ℕ → List Outside
paused_once n = if n == 1 then sets paused [] ∷ [] else if n == 2 then sets running [] ∷ [] else []

test_resumed :
    find_run 1 (execute_run show reply_of paused_once new_run two_steps with_run []).0.runs
    ≡ some (record new_run {
      status = completed;
      current_step = codes "step2";
      results =
          (
            codes "step2",
            field (codes "ok") (flag true) (field (codes "output") (text (codes "noon")) no_fields),
          )
          ∷ [];
    })
unfolding execute_run create_run text_mem text_eq
test_resumed = refl
