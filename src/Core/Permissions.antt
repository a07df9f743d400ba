-- ===== src/Core/Permissions.antt =====
-- astra/core/permissions.py: what an automated executor may do without asking.
pub mod Gate
mod Tests
use astra_ai_agent.Prelude.{
  ℕ, Bool, true, false, not, ◌&&◌, ◌||◌, List, [], ◌∷◌, String, str_eq, ◌==◌, if◌then◌else◌,
}

-- `Level.NAMES.get(level, "read")`
unfoldable pub level_name : ℕ → String
level_name level =
    if level == 20
    then "low_risk_write"
    else if level == 30
    then "browser_action"
    else if level == 40
    then "financial_action"
    else if level == 50
    then "system_action"
    else if level == 60
    then "admin"
    else "read"

-- The sets of granted levels and of tools whose prompt is skipped.
pub record Policy : Type 0 where
  pub granted : List String
  pub auto_confirm : List String

unfoldable pub contains : String → List String → Bool
contains s [] = false
contains s (t ∷ ts) = str_eq t s || contains s ts

unfoldable pub allows : Policy → ℕ → Bool
allows p level = contains (level_name level) p.granted

-- The strings 'allow', 'ask' and 'deny'.
pub data Answer : Type 0 where
  allow ask deny : Answer

unfoldable pub decision : Policy → ℕ → Bool → String → String → Answer
decision p level requires_confirmation tool_name confirmation_delegate =
    if str_eq (level_name level) "admin"
    then (if not (contains "admin" p.granted) then deny else allow)
    else if not (allows p level)
    then deny
    else if requires_confirmation && not (contains tool_name p.auto_confirm)
    then (if not (str_eq confirmation_delegate "") then allow else ask)
    else allow
