-- ===== src/Tools/Registry/Tests.antt =====
-- The registry at concrete tools.
use astra_ai_agent.Prelude.{ℕ, ◌≡◌, refl, true, false, List, [], ◌∷◌, none, String, arith}
use astra_ai_agent.Prelude.Text.{codes, text_eq}
use astra_ai_agent.Prelude.Json.{null, text, Fields, no_fields, field}
use astra_ai_agent.Core.Permissions.{level_name, allows, contains}
use astra_ai_agent.Tools.Registry.{
  ToolRegistry, agent_blocked, tool_returned, invoke_with_retry, execute_tool,
}
use astra_ai_agent.Tools.Schemas.{Attempt, returns, throws, string_type, Tool}
use astra_ai_agent.Tools.Registry.Attempts.{Tried, invoke_with_retry_lem}
use astra_ai_agent.Tools.Registry.Gates.{
  AgentCall, Gated, execute_tool-Gated, agent_calls, AllKeepIt, agent_calls-keep,
}
use astra_ai_agent.Tools.Registry.Slots.{starts, Spaced, starts-Spaced}

-- What was done, the last first.
abbrev World : Type 0
World = List String

-- A tool that fails the first time.
abbrev flaky : World → Fields → World × Attempt
flaky [] args = ("try" ∷ [], throws (codes "busy"))
flaky (w ∷ ws) args = ("try" ∷ w ∷ ws, returns null)

abbrev host : World → Fields → World × Attempt
host w args = ("host" ∷ w, returns null)

abbrev search_tool : Tool World
search_tool = record {
  name = "search";
  fn = flaky;
  input = (record { name = codes "query"; required = true; type = string_type }) ∷ [];
  risk = 10;
  requires_confirmation = false;
  confirmation_delegate = "";
  retries = 2;
  rate_limit_per_min = 6;
  strict = true;
  agent_forbidden = false;
}

abbrev host_tool : Tool World
host_tool = record search_tool {
  name = "terminal_exec";
  fn = host;
  input = [];
  strict = false;
  agent_forbidden = true;
}

abbrev registry : ToolRegistry World
registry = record {
  policy = record { granted = "read" ∷ []; auto_confirm = [] };
  tools = search_tool ∷ host_tool ∷ [];
  stats = [];
  rate_limit_last = [];
  events = [];
}

abbrev ten_seconds : ℕ → ℕ
ten_seconds n = 10000

abbrev query : Fields
query = field (codes "query") (text (codes "cats")) no_fields

abbrev nobody : World
nobody = []

test_search :
    (execute_tool ten_seconds 5 true true "search" query registry nobody).2 ≡ tool_returned null
unfolding execute_tool level_name allows contains text_eq
test_search = refl

test_host :
    (execute_tool ten_seconds 5 true true "terminal_exec" no_fields registry nobody).2
    ≡ agent_blocked
unfolding execute_tool
test_host = refl

execute_tool-Gated_example :
    Gated true true "search" query registry nobody
      (execute_tool ten_seconds 5 true true "search" query registry nobody)
execute_tool-Gated_example =
    execute_tool-Gated ten_seconds 5 true true "search" query registry nobody

invoke_with_retry_lem_example : Tried flaky query 2 nobody (invoke_with_retry flaky 2 query nobody)
invoke_with_retry_lem_example = invoke_with_retry_lem flaky query 2 nobody

-- Nothing was done on the host.
abbrev HostUntouched : World → Type 0
HostUntouched [] = Unit
HostUntouched (s ∷ w) = (s ≡ "try") × HostUntouched w

abbrev two_calls : List AgentCall
two_calls =
    (record { now = 5; allow_confirmation = true; name = "terminal_exec"; args = no_fields })
    ∷ (record { now = 6; allow_confirmation = true; name = "search"; args = query })
    ∷ []

all_keep : AllKeepIt HostUntouched registry.tools
all_keep = (
  λ open_tool args w h. keeps args w h,
  (λ forbidden args w h. absurd (ground (arith, forbidden)), tt),
)
  where
    keeps : (args : Fields) (w : World) → HostUntouched w → HostUntouched (flaky w args).0
    keeps args [] h = (refl, tt)
    keeps args (s ∷ w) h = (refl, h)

agent_calls-keep_example : HostUntouched (agent_calls ten_seconds two_calls registry nobody).1
agent_calls-keep_example =
    agent_calls-keep HostUntouched ten_seconds two_calls registry nobody all_keep tt

abbrev no_slots : List (String × ℕ)
no_slots = []

abbrev arrivals : List ℕ
arrivals = 7 ∷ 8 ∷ 5 ∷ []

test_starts : starts 10 "search" arrivals no_slots ≡ 7 ∷ 17 ∷ 27 ∷ []
unfolding starts
test_starts = refl

starts-Spaced_example : Spaced 10 none arrivals (starts 10 "search" arrivals no_slots)
unfolding starts
starts-Spaced_example = starts-Spaced 10 "search" arrivals no_slots
