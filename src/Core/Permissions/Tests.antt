-- ===== src/Core/Permissions/Tests.antt =====
-- The permission of a financial tool.
use astra_ai_agent.Prelude.{◌≡◌, ◌≢◌, ◌↔◌, true, false, [], ◌∷◌, String}
use astra_ai_agent.Core.Permissions.{Policy, contains, level_name, decision, ask, deny}
use astra_ai_agent.Core.Permissions.Gate.{decision_lem}

abbrev policy : Policy
policy = record { granted = "read" ∷ "financial_action" ∷ []; auto_confirm = [] }

abbrev delegate : String
delegate = ""

decision_lem_example :
    ((decision policy 40 true "tx_prepare" delegate ≡ deny)
      ↔ (contains (level_name 40) policy.granted ≡ false))
    × ((decision policy 40 true "tx_prepare" delegate ≡ ask) ↔ (
        (contains (level_name 40) policy.granted ≡ true)
        × (level_name 40 ≢ "admin")
        × (true ≡ true)
        × (contains "tx_prepare" policy.auto_confirm ≡ false)
        × (delegate ≡ "")))
decision_lem_example = decision_lem policy 40 true "tx_prepare" delegate
