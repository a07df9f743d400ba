-- ===== src/Core/Permissions/Gate.antt =====
-- When a tool is denied and when the user is asked.
use astra_ai_agent.Prelude.{ℕ, ◌≡◌, ◌≢◌, ◌↔◌, Bool, true, false, String, eq_iff, arith}
use astra_ai_agent.Core.Permissions.{Policy, contains, allows, level_name, decision, ask, deny}

-- A tool is denied exactly if its level is not granted, whatever else it says of itself. The user is
-- asked exactly if the level is granted and is not admin, the tool wants a confirmation that is not
-- skipped for it, and it names no gate of its own.
pub decision_lem :
    (p : Policy) (level : ℕ) (confirms : Bool) (tool delegate : String)
    → ((decision p level confirms tool delegate ≡ deny)
        ↔ (contains (level_name level) p.granted ≡ false))
      × ((decision p level confirms tool delegate ≡ ask) ↔ (
          (contains (level_name level) p.granted ≡ true)
          × (level_name level ≢ "admin")
          × (confirms ≡ true)
          × (contains tool p.auto_confirm ≡ false)
          × (delegate ≡ "")))
unfolding decision allows
decision_lem p level confirms tool delegate =
    ground (arith, eq_iff (level_name level) "admin", eq_iff delegate "")
