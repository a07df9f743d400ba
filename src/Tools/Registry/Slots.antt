-- ===== src/Tools/Registry/Slots.antt =====
-- The slots of a tool with a limit.
use mathlib.Core.Path.{subst}
use astra_ai_agent.Prelude.{
  ℕ, ◌+◌, ◌≤◌, ◌≡◌, List, [], ◌∷◌, Option, none, some, String, str_eq, eq_iff, arith, if◌then◌else◌,
}
use astra_ai_agent.Tools.Registry.{last_slot, set_slot, start_at, reserve}

last_slot-set_slot :
    (k j : String) (t : ℕ) (slots : List (String × ℕ))
    → last_slot j (set_slot k t slots) ≡ (if str_eq k j then some t else last_slot j slots)
unfolding last_slot set_slot
last_slot-set_slot k j t [] = ground arith
last_slot-set_slot k j t ((i, u) ∷ slots) =
    ground (arith, last_slot-set_slot k j t slots, eq_iff i k, eq_iff i j, eq_iff k j)

-- The starting times of callers of one tool, who look at their clocks in any order.
unfoldable pub starts : ℕ → String → List ℕ → List (String × ℕ) → List ℕ
unfolding reserve
starts interval k [] slots = []
starts interval k (now ∷ nows) slots =
    (reserve interval now k slots).1 ∷ starts interval k nows (reserve interval now k slots).0

abbrev pub IsBehind : ℕ → Option ℕ → ℕ → Type 0
IsBehind interval none t = Unit
IsBehind interval (some last) t = last + interval ≤ t

-- Each caller starts no earlier than its own time and than an interval after the one before it.
abbrev pub Spaced : ℕ → Option ℕ → List ℕ → List ℕ → Type 0
Spaced interval last [] [] = Unit
Spaced interval last (now ∷ nows) (t ∷ ts) =
    (now ≤ t) × IsBehind interval last t × Spaced interval (some t) nows ts
Spaced interval last _ _ = ⊥

start_at-IsBehind :
    (interval now : ℕ) (last : Option ℕ)
    → (now ≤ start_at interval now last) × IsBehind interval last (start_at interval now last)
unfolding start_at
start_at-IsBehind interval now none = (omega arith, tt)
start_at-IsBehind interval now (some last) = ground arith

-- Whatever the times at which the callers come, in the order in which they take the lock: each of
-- them starts no earlier than it came, and no earlier than an interval after the one before it,
-- which for the first caller is the last slot that was reserved.
pub starts-Spaced :
    (interval : ℕ) (k : String) (nows : List ℕ) (slots : List (String × ℕ))
    → Spaced interval (last_slot k slots) nows (starts interval k nows slots)
unfolding starts reserve
starts-Spaced interval k [] slots = tt
starts-Spaced interval k (now ∷ nows) slots =
    let t = start_at interval now (last_slot k slots) in
    let first = start_at-IsBehind interval now (last_slot k slots) in
    let slot : last_slot k (set_slot k t slots) ≡ some t =
      ground (arith, last_slot-set_slot k k t slots, eq_iff k k) in
    (
      first.0,
      first.1,
      subst (λ o. Spaced interval o nows (starts interval k nows (set_slot k t slots))) slot
          (starts-Spaced interval k nows (set_slot k t slots)),
    )
