-- ===== src/Workflows/Steps/Sound.antt =====
-- What holds of the steps that `normalize_steps` accepts.
use mathlib.Core.Path.{subst}
use astra_ai_agent.Prelude.{
  ℕ, suc, ◌≤◌, ◌≡◌, refl, ap, true, false, List, [], ◌∷◌, Option, none, some, length, arith,
}
use astra_ai_agent.Prelude.Text.{Text, codes, text_eq, text_eq_iff, text_eq_refl, text_mem}
use astra_ai_agent.Prelude.Json.{
  Json, null, flag, number, text, array, object, Elements, no_elements, element, Fields, get_field,
}
use astra_ai_agent.Workflows.Graph.{ids, Visit, finished, cycle, out_of_fuel, check_cycles, topo}
use astra_ai_agent.Workflows.Graph.Sets.{Within, Distinct}
use astra_ai_agent.Workflows.Graph.Walk.{is_finished}
use astra_ai_agent.Workflows.Graph.Acyclic.{check_cycles-topo}
use astra_ai_agent.Workflows.Steps.{
  Checked, accepted, refused, ◌>>=◌, Condition, Step, is_blank_text, check_id, step_id, step_tool,
  step_params, step_depends_on, step_condition, step_name, normalize_step, fields_of,
  normalize_each, step_ids, check_deps, check_condition, check_links, nodes, refuse_cycle,
  check_steps, normalize_steps,
}

-- What a chain of checks accepts was accepted at each of them.
accepted-bind {ℓ κ} :
    {A : Type ℓ} {B : Type κ} (m : Checked A) {f : A → Checked B} {b : B}
    → (m >>= f) ≡ accepted b
    → (a : A) × (m ≡ accepted a) × (f a ≡ accepted b)
unfolding ◌>>=◌
accepted-bind (accepted a) h = (a, refl, h)
accepted-bind (refused e) h = absurd (ground arith)

accepted-injective {ℓ} : {A : Type ℓ} {a b : A} → accepted a ≡ accepted b → a ≡ b
accepted-injective h = cc

abbrev KnownCondition : List Text → Option Condition → Type 0
KnownCondition known none = Unit
KnownCondition known (some c) = text_mem c.step known ≡ true

-- A step has a tool, and the steps that it names are others of the definition (a condition may
-- name the step itself).
abbrev pub IsLinked : List Text → Step → Type 0
IsLinked known s =
    (text_eq s.tool [] ≡ false)
    × (text_mem s.id s.depends_on ≡ false)
    × Within s.depends_on known
    × KnownCondition known s.condition

abbrev pub AllLinked : List Text → List Step → Type 0
AllLinked known [] = Unit
AllLinked known (s ∷ ss) = IsLinked known s × AllLinked known ss

-- What `run` relies on: distinct identifiers, links to steps that exist, and an order of all steps.
abbrev pub IsWellFormed : List Step → Type 0
IsWellFormed steps =
    Distinct (step_ids steps)
    × AllLinked (step_ids steps) steps
    × (length steps ≤ length (topo (nodes steps)))

check_id-fresh :
    (i : ℕ) (used : List Text) (sid : Text) {s : Text}
    → check_id i used sid ≡ accepted s
    → text_mem s used ≡ false
unfolding check_id
check_id-fresh i used sid h = ground arith

step_id-fresh :
    (i : ℕ) (used : List Text) (v : Json) {s : Text}
    → step_id i used v ≡ accepted s
    → text_mem s used ≡ false
unfolding step_id
step_id-fresh i used null h = check_id-fresh i used _ h
step_id-fresh i used (text []) h = check_id-fresh i used _ h
step_id-fresh i used (text (c ∷ s)) h = check_id-fresh i used (c ∷ s) h
step_id-fresh i used (flag b) h = absurd (ground arith)
step_id-fresh i used (number n) h = absurd (ground arith)
step_id-fresh i used (array es) h = absurd (ground arith)
step_id-fresh i used (object fs) h = absurd (ground arith)

step_tool-set :
    (sid : Text) (v : Json) {t : Text} → step_tool sid v ≡ accepted t → text_eq t [] ≡ false
unfolding step_tool is_blank_text
step_tool-set sid (text t) h = ground arith
step_tool-set sid null h = absurd (ground arith)
step_tool-set sid (flag b) h = absurd (ground arith)
step_tool-set sid (number n) h = absurd (ground arith)
step_tool-set sid (array es) h = absurd (ground arith)
step_tool-set sid (object fs) h = absurd (ground arith)

normalize_step-fresh :
    (i : ℕ) (used : List Text) (raw : Fields) {s : Step}
    → normalize_step i used raw ≡ accepted s
    → (text_mem s.id used ≡ false) × (text_eq s.tool [] ≡ false)
unfolding normalize_step
normalize_step-fresh i used raw h =
    let (sid, id_ok, h1) = accepted-bind (step_id i used (get_field (codes "id") raw)) h in
    let (tool, tool_ok, h2) = accepted-bind (step_tool sid (get_field (codes "tool") raw)) h1 in
    let (params, params_ok, h3) =
      accepted-bind (step_params sid (get_field (codes "params") raw)) h2 in
    let (deps, deps_ok, h4) =
      accepted-bind (step_depends_on sid (get_field (codes "depends_on") raw)) h3 in
    let (cond, cond_ok, h5) = accepted-bind (step_condition sid (get_field (codes "if") raw)) h4 in
    let (name, name_ok, h6) = accepted-bind (step_name sid (get_field (codes "name") raw)) h5 in
    let fresh = step_id-fresh i used (get_field (codes "id") raw) id_ok in
    let set = step_tool-set sid (get_field (codes "tool") raw) tool_ok in ground (arith, h6)

-- Each step has a tool, and an identifier that is not used.
abbrev Fresh : List Text → List Step → Type 0
Fresh used [] = Unit
Fresh used (s ∷ ss) =
    (text_mem s.id used ≡ false) × (text_eq s.tool [] ≡ false) × Fresh (s.id ∷ used) ss

normalize_each-Fresh :
    (i : ℕ) (used : List Text) (es : Elements) {ss : List Step}
    → normalize_each i used es ≡ accepted ss
    → Fresh used ss
unfolding normalize_each
normalize_each-Fresh i used no_elements h = subst (Fresh used) (accepted-injective h) tt
normalize_each-Fresh i used (element raw rest) h =
    let (fs, fields, h1) = accepted-bind (fields_of i raw) h in
    let (s, step, h2) = accepted-bind (normalize_step i used fs) h1 in
    let (ss, each, h3) = accepted-bind (normalize_each (suc i) (s.id ∷ used) rest) h2 in
    let (new, set) = normalize_step-fresh i used fs step in
    let later = normalize_each-Fresh (suc i) (s.id ∷ used) rest each in
    subst (Fresh used) (accepted-injective h3) (new, set, later)

Fresh-mem :
    (k : Text) (used : List Text) (ss : List Step)
    → text_mem k used ≡ true
    → Fresh used ss
    → text_mem k (step_ids ss) ≡ false
unfolding step_ids text_mem
Fresh-mem k used [] m f = refl
Fresh-mem k used (s ∷ ss) m f =
    ground (arith, text_eq_iff k s.id, m, f.0, Fresh-mem k (s.id ∷ used) ss (ground arith) f.2)

Fresh-Distinct : (used : List Text) (ss : List Step) → Fresh used ss → Distinct (step_ids ss)
unfolding step_ids text_mem
Fresh-Distinct used [] f = tt
Fresh-Distinct used (s ∷ ss) f = (
  Fresh-mem s.id (s.id ∷ used) ss (ground (arith, text_eq_refl s.id)) f.2,
  Fresh-Distinct (s.id ∷ used) ss f.2,
)

check_deps-links :
    (known : List Text) (sid : Text) (ds : List Text)
    → check_deps known sid ds ≡ accepted tt
    → (text_mem sid ds ≡ false) × Within ds known
unfolding check_deps text_mem
check_deps-links known sid [] h = (refl, tt)
check_deps-links known sid (d ∷ ds) h =
    let rest = check_deps-links known sid ds (ground arith) in
    (ground (arith, rest.0, text_eq_iff d sid, text_eq_iff sid d), (ground arith, rest.1))

check_condition-links :
    (known : List Text) (sid : Text) (c : Option Condition)
    → check_condition known sid c ≡ accepted tt
    → KnownCondition known c
unfolding check_condition
check_condition-links known sid none h = tt
check_condition-links known sid (some c) h = ground arith

check_links-AllLinked :
    (known used : List Text) (ss : List Step)
    → Fresh used ss
    → check_links known ss ≡ accepted tt
    → AllLinked known ss
unfolding check_links
check_links-AllLinked known used [] f h = tt
check_links-AllLinked known used (s ∷ ss) f h =
    let (u, deps_ok, h1) = accepted-bind (check_deps known s.id s.depends_on) h in
    let (v, cond_ok, h2) = accepted-bind (check_condition known s.id s.condition) h1 in
    let (off, within) = check_deps-links known s.id s.depends_on deps_ok in
    (
      (f.1, off, within, check_condition-links known s.id s.condition cond_ok),
      check_links-AllLinked known (s.id ∷ used) ss f.2 h2,
    )

pub ids-nodes : (ss : List Step) → ids (nodes ss) ≡ step_ids ss
unfolding nodes step_ids
ids-nodes [] = refl
ids-nodes (s ∷ ss) = ap (λ ks. s.id ∷ ks) (ids-nodes ss)

pub length-nodes : (ss : List Step) → length (nodes ss) ≡ length ss
unfolding nodes
length-nodes [] = refl
length-nodes (s ∷ ss) = ap suc (length-nodes ss)

refuse_cycle-finished : (v : Visit) → refuse_cycle v ≡ accepted tt → is_finished v ≡ true
unfolding refuse_cycle is_finished
refuse_cycle-finished (finished b) h = refl
refuse_cycle-finished (cycle p) h = absurd (ground arith)
refuse_cycle-finished out_of_fuel h = absurd (ground arith)

check_steps-IsWellFormed :
    (out steps : List Step) → Fresh [] out → check_steps out ≡ accepted steps → IsWellFormed steps
unfolding check_steps
check_steps-IsWellFormed out steps f h =
    let (u, links, h1) = accepted-bind (check_links (step_ids out) out) h in
    let (v, acyclic, h2) = accepted-bind (refuse_cycle (check_cycles (nodes out))) h1 in
    let distinct = Fresh-Distinct [] out f in
    let complete = check_cycles-topo (nodes out) (rw (ids-nodes out) distinct) in
    let all : IsWellFormed out = (
      distinct,
      check_links-AllLinked (step_ids out) [] out f links,
      ground (
        arith,
        refuse_cycle-finished (check_cycles (nodes out)) acyclic,
        complete,
        length-nodes out,
      ),
    ) in
    subst IsWellFormed (accepted-injective h2) all

-- The steps that `normalize_steps` accepts have distinct identifiers, tools that are named,
-- dependencies on other steps and conditions on steps of the definition, and `_topo` emits all of
-- them.
pub normalize_steps-IsWellFormed :
    (v : Json) {steps : List Step} → normalize_steps v ≡ accepted steps → IsWellFormed steps
unfolding normalize_steps
normalize_steps-IsWellFormed null h =
    subst IsWellFormed (accepted-injective h) (tt, tt, omega arith)
normalize_steps-IsWellFormed (array es) {steps = steps} h =
    let (out, each, h1) = accepted-bind (normalize_each 1 [] es) h in
    check_steps-IsWellFormed out steps (normalize_each-Fresh 1 [] es each) h1
normalize_steps-IsWellFormed (flag b) h = absurd (ground arith)
normalize_steps-IsWellFormed (number n) h = absurd (ground arith)
normalize_steps-IsWellFormed (text t) h = absurd (ground arith)
normalize_steps-IsWellFormed (object fs) h = absurd (ground arith)
