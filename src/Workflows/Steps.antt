-- ===== src/Workflows/Steps.antt =====
-- `normalize_steps` of astra/workflows/engine.py: the checks that a definition's steps pass before
-- they are stored. A step keeps the fields that the engine reads.
pub mod Sound
use astra_ai_agent.Prelude.{
  ℕ, zero, suc, ◌+◌, Bool, true, false, ◌&&◌, not, List, [], ◌∷◌, ◌++◌, Option, none, some, length,
  if◌then◌else◌,
}
use astra_ai_agent.Prelude.Text.{Text, codes, strip, text_eq, text_mem}
use astra_ai_agent.Prelude.Json.{
  Json, null, flag, number, text, array, object, Elements, no_elements, element, Fields, no_fields,
  field, get_field, truthy,
}
use astra_ai_agent.Workflows.Graph.{Node, Visit, finished, cycle, out_of_fuel, check_cycles}
use astra_ai_agent.Workflows.Names.{decimal, first_free}

-- `InvalidDefinition`, by its message.
pub data InvalidDefinition : Type 0 where
  steps_not_list : InvalidDefinition
  step_not_object : ℕ → InvalidDefinition
  bad_id : ℕ → InvalidDefinition
  duplicate_id : Text → InvalidDefinition
  needs_tool : Text → InvalidDefinition
  bad_params : Text → InvalidDefinition
  bad_depends_on : Text → InvalidDefinition
  bad_condition : Text → InvalidDefinition
  unknown_op : Text → InvalidDefinition
  bad_name : Text → InvalidDefinition
  depends_on_itself : Text → InvalidDefinition
  unknown_dependency : Text → Text → InvalidDefinition
  unknown_condition : Text → Text → InvalidDefinition
  dependency_cycle : List Text → InvalidDefinition
  search_unfinished : InvalidDefinition

pub data Checked {ℓ} (A : Type ℓ) : Type ℓ where
  accepted : A → Checked A
  refused : InvalidDefinition → Checked A

infixl 5 ◌>>=◌
unfoldable pub ◌>>=◌ {ℓ κ} : {A : Type ℓ} {B : Type κ} → Checked A → (A → Checked B) → Checked B
accepted a >>= f = f a
refused e >>= f = refused e

pub data Op : Type 0 where
  op_ok op_not_ok : Op

pub record Condition : Type 0 where
  pub step : Text
  pub op : Op

pub record Step : Type 0 where
  pub id : Text
  pub tool : Text
  pub params : Fields
  pub depends_on : List Text
  pub condition : Option Condition
  pub name : Option Text

-- `step{i}`, and `step{i}_{n}`.
unfoldable pub plain_id : ℕ → Text
plain_id i = codes "step" ++ decimal i

unfoldable pub numbered_id : ℕ → ℕ → Text
numbered_id i n = (codes "step" ++ decimal i) ++ (codes "_" ++ decimal n)

-- The identifier of a step without one. One more name is tried than there are used ones.
unfoldable pub generated_id : ℕ → List Text → Text
unfolding plain_id numbered_id first_free
generated_id i used =
    if text_mem (plain_id i) used
    then first_free (λ t. text_mem t used) (numbered_id i) (suc (length used)) 2
    else plain_id i

unfoldable pub is_blank_text : Text → Bool
is_blank_text s = text_eq (strip s) []

unfoldable pub check_id : ℕ → List Text → Text → Checked Text
unfolding is_blank_text
check_id i used sid =
    if is_blank_text sid
    then refused (bad_id i)
    else if text_mem sid used
    then refused (duplicate_id sid)
    else accepted sid

unfoldable pub step_id : ℕ → List Text → Json → Checked Text
unfolding check_id generated_id
step_id i used null = check_id i used (generated_id i used)
step_id i used (text []) = check_id i used (generated_id i used)
step_id i used (text (c ∷ s)) = check_id i used (c ∷ s)
step_id i used _ = refused (bad_id i)

unfoldable pub step_tool : Text → Json → Checked Text
unfolding is_blank_text
step_tool sid (text t) = if is_blank_text t then refused (needs_tool sid) else accepted (strip t)
step_tool sid _ = refused (needs_tool sid)

unfoldable pub step_params : Text → Json → Checked Fields
step_params sid null = accepted no_fields
step_params sid (object fs) = accepted fs
step_params sid _ = refused (bad_params sid)

-- A list of strings, if it is one.
unfoldable pub strings : Elements → Option (List Text)
strings no_elements = some []
strings (element (text t) es) = elim (strings es) [ some ts ↦ some (t ∷ ts) | none ↦ none ]
strings (element _ es) = none

-- `list(dict.fromkeys(deps))`: the first of equal ones is kept.
unfoldable pub dedupe : List Text → List Text → List Text
dedupe seen [] = []
dedupe seen (d ∷ ds) = elim (text_mem d seen) [
  | true ↦ dedupe seen ds
  | false ↦ d ∷ dedupe (d ∷ seen) ds
]

unfoldable pub dependency_list : Text → Json → Checked (List Text)
unfolding strings dedupe
dependency_list sid (text t) = accepted (t ∷ [])
dependency_list sid (array es) = elim (strings es) [
  | some ts ↦ accepted (dedupe [] ts)
  | none ↦ refused (bad_depends_on sid)
]
dependency_list sid _ = refused (bad_depends_on sid)

-- A false value, such as `None` or the empty text, is no dependency.
unfoldable pub step_depends_on : Text → Json → Checked (List Text)
unfolding truthy dependency_list
step_depends_on sid v = if truthy v then dependency_list sid v else accepted []

unfoldable pub condition_op : Text → Json → Checked Op
unfolding truthy
condition_op sid (text t) =
    if text_eq t []
    then accepted op_ok
    else if text_eq t (codes "ok")
    then accepted op_ok
    else if text_eq t (codes "not_ok")
    then accepted op_not_ok
    else refused (unknown_op sid)
condition_op sid v = if truthy v then refused (unknown_op sid) else accepted op_ok

-- A condition on the step `k`.
unfoldable pub condition_on : Text → Json → Fields → Checked (Option Condition)
unfolding condition_op get_field ◌>>=◌
condition_on sid (text (c ∷ s)) fs = do
  op ← condition_op sid (get_field (codes "op") fs)
  accepted (some (record { step = c ∷ s; op = op }))
condition_on sid _ fs = refused (bad_condition sid)

unfoldable pub step_condition : Text → Json → Checked (Option Condition)
unfolding condition_on get_field
step_condition sid null = accepted none
step_condition sid (object fs) = condition_on sid (get_field (codes "step") fs) fs
step_condition sid _ = refused (bad_condition sid)

unfoldable pub step_name : Text → Json → Checked (Option Text)
step_name sid null = accepted none
step_name sid (text t) = accepted (some t)
step_name sid _ = refused (bad_name sid)

-- The body of the first loop.
unfoldable pub normalize_step : ℕ → List Text → Fields → Checked Step
unfolding ◌>>=◌ get_field step_id step_tool step_params step_depends_on step_condition step_name
normalize_step i used raw = do
  sid ← step_id i used (get_field (codes "id") raw)
  tool ← step_tool sid (get_field (codes "tool") raw)
  params ← step_params sid (get_field (codes "params") raw)
  depends_on ← step_depends_on sid (get_field (codes "depends_on") raw)
  condition ← step_condition sid (get_field (codes "if") raw)
  name ← step_name sid (get_field (codes "name") raw)
  accepted (record {
    id = sid;
    tool = tool;
    params = params;
    depends_on = depends_on;
    condition = condition;
    name = name;
  })

unfoldable pub fields_of : ℕ → Json → Checked Fields
fields_of i (object fs) = accepted fs
fields_of i _ = refused (step_not_object i)

-- The first loop, with the identifiers that are used.
unfoldable pub normalize_each : ℕ → List Text → Elements → Checked (List Step)
unfolding ◌>>=◌ fields_of normalize_step
normalize_each i used no_elements = accepted []
normalize_each i used (element raw rest) = do
  fs ← fields_of i raw
  s ← normalize_step i used fs
  ss ← normalize_each (suc i) (s.id ∷ used) rest
  accepted (s ∷ ss)

unfoldable pub step_ids : List Step → List Text
step_ids [] = []
step_ids (s ∷ ss) = s.id ∷ step_ids ss

unfoldable pub check_deps : List Text → Text → List Text → Checked {0} Unit
check_deps known sid [] = accepted tt
check_deps known sid (d ∷ ds) =
    let rest = check_deps known sid ds in
    if text_eq d sid
    then refused (depends_on_itself sid)
    else if not (text_mem d known)
    then refused (unknown_dependency sid d)
    else rest

unfoldable pub check_condition : List Text → Text → Option Condition → Checked {0} Unit
check_condition known sid none = accepted tt
check_condition known sid (some c) =
    if text_mem c.step known then accepted tt else refused (unknown_condition sid c.step)

-- The second loop.
unfoldable pub check_links : List Text → List Step → Checked {0} Unit
unfolding ◌>>=◌ check_deps check_condition
check_links known [] = accepted tt
check_links known (s ∷ ss) = do
  _ ← check_deps known s.id s.depends_on
  _ ← check_condition known s.id s.condition
  check_links known ss

unfoldable pub nodes : List Step → List Node
nodes [] = []
nodes (s ∷ ss) = record { id = s.id; depends_on = s.depends_on } ∷ nodes ss

unfoldable pub refuse_cycle : Visit → Checked {0} Unit
refuse_cycle (finished b) = accepted tt
refuse_cycle (cycle p) = refused (dependency_cycle p)
refuse_cycle out_of_fuel = refused search_unfinished

-- What is checked of the steps together.
unfoldable pub check_steps : List Step → Checked (List Step)
unfolding ◌>>=◌ step_ids check_links nodes refuse_cycle check_cycles
check_steps out = do
  _ ← check_links (step_ids out) out
  _ ← refuse_cycle (check_cycles (nodes out))
  accepted out

unfoldable pub normalize_steps : Json → Checked (List Step)
unfolding ◌>>=◌ normalize_each check_steps
normalize_steps null = accepted []
normalize_steps (array es) = do out ← normalize_each 1 [] es; check_steps out
normalize_steps _ = refused steps_not_list
