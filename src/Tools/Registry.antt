-- ===== src/Tools/Registry.antt =====
-- astra/tools/registry.py: the gates before a tool is executed, its attempts, and what is noted of
-- it. A time is a number of ticks of the clock.
pub mod Gates
pub mod Attempts
pub mod Slots
mod Tests
use astra_ai_agent.Prelude.{
  ℕ, zero, suc, ◌+◌, Bool, true, false, ◌&&◌, ◌||◌, not, List, [], ◌∷◌, ◌++◌, Option, none, some,
  String, str_eq, leb, ◌==◌, if◌then◌else◌,
}
use astra_ai_agent.Prelude.Text.{Text, text_eq}
use astra_ai_agent.Prelude.Json.{
  Json, null, flag, number, text, array, object, Fields, no_fields, field, get_field,
}
use astra_ai_agent.Core.Permissions.{Policy, Answer, allow, ask, deny, decision}
use astra_ai_agent.Tools.Schemas.{
  ArgSpec, ArgType, Attempt, Tool, ValidationError, any_type, bool_type, check_args, check_extra,
  check_strict, dict_type, has_type, int_type, is_declared, is_given, list_type, missing_argument,
  number_type, returns, satisfies, string_type, throws, unknown_argument, wrong_type,
}

pub record Stats : Type 0 where
  pub name : String
  pub calls : ℕ
  pub errors : ℕ

-- What is published, with the tool's name.
pub data ToolEvent : Type 0 where
  tool_blocked tool_started tool_failed tool_completed : String → ToolEvent

-- `_rate_limit_last` holds the last slot of each tool.
pub record ToolRegistry {ℓ} (World : Type ℓ) : Type ℓ where
  pub policy : Policy
  pub tools : List (Tool World)
  pub stats : List Stats
  pub rate_limit_last : List (String × ℕ)
  pub events : List ToolEvent

-- How a call of `execute` ends: with a reply, or by an exception (for an unknown tool, a denied one,
-- arguments against the schema, or a tool that failed).
pub data ToolReply : Type 0 where
  unknown_tool_name tool_denied tool_asks agent_blocked : ToolReply
  tool_invalid : ValidationError → ToolReply
  tool_raised : Text → ToolReply
  tool_returned : Json → ToolReply

unfoldable pub note_stats : String → Bool → List Stats → List Stats
note_stats k errored [] = (record { name = k; calls = 1; errors = if errored then 1 else 0 }) ∷ []
note_stats k errored (s ∷ ss) =
    let rest = note_stats k errored ss in
    if str_eq s.name k
    then (record s { calls = suc s.calls; errors = if errored then suc s.errors else s.errors })
      ∷ ss
    else s ∷ rest

unfoldable pub last_slot : String → List (String × ℕ) → Option ℕ
last_slot k [] = none
last_slot k ((j, t) ∷ ts) = if str_eq j k then some t else last_slot k ts

unfoldable pub set_slot : String → ℕ → List (String × ℕ) → List (String × ℕ)
set_slot k t [] = (k, t) ∷ []
set_slot k t ((j, u) ∷ ts) =
    let rest = set_slot k t ts in if str_eq j k then (j, t) ∷ ts else (j, u) ∷ rest

-- `max(now, last + interval) if last is not None else now`
unfoldable pub start_at : ℕ → ℕ → Option ℕ → ℕ
start_at interval now none = now
start_at interval now (some last) = if leb now (last + interval) then last + interval else now

-- The reservation of a slot, under the lock: the slots, and the time at which the call may start.
unfoldable pub reserve : ℕ → ℕ → String → List (String × ℕ) → List (String × ℕ) × ℕ
unfolding last_slot set_slot start_at
reserve interval now k slots =
    let t = start_at interval now (last_slot k slots) in (set_slot k t slots, t)

module _ {ℓ} {World : Type ℓ} where
  unfoldable pub find_tool : String → List (Tool World) → Option (Tool World)
  find_tool k [] = none
  find_tool k (t ∷ ts) = if str_eq t.name k then some t else find_tool k ts

  unfoldable pub remove_tool : String → List (Tool World) → List (Tool World)
  remove_tool k [] = []
  remove_tool k (t ∷ ts) = let rest = remove_tool k ts in if str_eq t.name k then rest else t ∷ rest

  -- A tool of the same name is replaced.
  unfoldable pub register : Tool World → ToolRegistry World → ToolRegistry World
  unfolding remove_tool
  register t r = record r { tools = t ∷ remove_tool t.name r.tools }

  unfoldable pub unregister : String → ToolRegistry World → ToolRegistry World
  unfolding remove_tool
  unregister k r = record r { tools = remove_tool k r.tools }

  unfoldable pub emit_tool : ToolEvent → ToolRegistry World → ToolRegistry World
  emit_tool ev r = record r { events = r.events ++ ev ∷ [] }

  unfoldable pub note_call : String → Bool → ToolRegistry World → ToolRegistry World
  unfolding note_stats
  note_call k errored r = record r { stats = note_stats k errored r.stats }

  -- `_invoke_with_retry`: the retries that are left when an attempt raised.
  unfoldable pub invoke_with_retry :
      (World → Fields → World × Attempt) → ℕ → Fields → World → World × Attempt
  invoke_with_retry fn zero args w = fn w args
  invoke_with_retry fn (suc n) args w =
      let r = fn w args in
      elim r.1 [ returns v ↦ (r.0, returns v) | throws e ↦ invoke_with_retry fn n args r.0 ]

  -- The slot of a tool with a limit; `interval` is the time between two slots.
  unfoldable pub enforce_rate_limit :
      (ℕ → ℕ) → ℕ → Tool World → ToolRegistry World → ToolRegistry World
  unfolding reserve
  enforce_rate_limit interval now t r = if t.rate_limit_per_min == 0 then r else record r {
    rate_limit_last = (reserve (interval t.rate_limit_per_min) now t.name r.rate_limit_last).0;
  }

  unfoldable pub record_attempt :
      String → ToolRegistry World → World × Attempt → ToolRegistry World × World × ToolReply
  unfolding note_call emit_tool
  record_attempt k r (w, returns v) =
      (emit_tool (tool_completed k) (note_call k false r), w, tool_returned v)
  record_attempt k r (w, throws e) =
      (emit_tool (tool_failed k) (note_call k true r), w, tool_raised e)

  -- What is done for a tool that passed the gates.
  unfoldable pub run_allowed :
      (ℕ → ℕ)
      → ℕ
      → Tool World
      → Fields
      → ToolRegistry World
      → World
      → ToolRegistry World × World × ToolReply
  unfolding enforce_rate_limit emit_tool invoke_with_retry record_attempt
  run_allowed interval now t args r w =
      record_attempt t.name (emit_tool (tool_started t.name) (enforce_rate_limit interval now t r))
        (invoke_with_retry t.fn t.retries args w)

  unfoldable pub run_valid :
      (ℕ → ℕ)
      → ℕ
      → Tool World
      → Fields
      → ToolRegistry World
      → World
      → ToolRegistry World × World × ToolReply
  unfolding satisfies run_allowed
  run_valid interval now t args r w = elim (satisfies t args) [
    | some e ↦ (r, w, tool_invalid e)
    | none ↦ run_allowed interval now t args r w
  ]

  unfoldable pub tool_decision : Bool → Tool World → ToolRegistry World → Answer
  unfolding decision
  tool_decision allow_confirmation t r =
      decision r.policy t.risk t.requires_confirmation t.name
        (if allow_confirmation then t.confirmation_delegate else "")

  unfoldable pub run_decided :
      (ℕ → ℕ)
      → ℕ
      → Bool
      → Tool World
      → Fields
      → ToolRegistry World
      → World
      → ToolRegistry World × World × ToolReply
  unfolding tool_decision run_valid
  run_decided interval now allow_confirmation t args r w =
      elim (tool_decision allow_confirmation t r) [
        | deny ↦ (r, w, tool_denied)
        | ask ↦ (r, w, tool_asks)
        | allow ↦ run_valid interval now t args r w
      ]

  unfoldable pub run_tool :
      (ℕ → ℕ)
      → ℕ
      → Bool
      → Bool
      → Tool World
      → Fields
      → ToolRegistry World
      → World
      → ToolRegistry World × World × ToolReply
  unfolding emit_tool run_decided
  run_tool interval now agent allow_confirmation t args r w = elim (t.agent_forbidden && agent) [
    | true ↦ (emit_tool (tool_blocked t.name) r, w, agent_blocked)
    | false ↦ run_decided interval now allow_confirmation t args r w
  ]

  -- `execute`, for a caller that is an agent or not.
  unfoldable pub execute_tool :
      (ℕ → ℕ)
      → ℕ
      → Bool
      → Bool
      → String
      → Fields
      → ToolRegistry World
      → World
      → ToolRegistry World × World × ToolReply
  unfolding find_tool run_tool
  execute_tool interval now agent allow_confirmation k args r w = elim (find_tool k r.tools) [
    | none ↦ (r, w, unknown_tool_name)
    | some t ↦ run_tool interval now agent allow_confirmation t args r w
  ]
