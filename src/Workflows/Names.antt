-- ===== src/Workflows/Names.antt =====
-- The names that the engine makes up: a first choice, or the first numbered one that is free.
pub mod Free
use astra_ai_agent.Prelude.{
  ℕ, zero, suc, ◌+◌, ◌/◌, ◌%◌, Bool, true, false, List, [], ◌∷◌, ◌++◌, ltb, if◌then◌else◌,
}
use astra_ai_agent.Prelude.Text.{Text, codes, text_mem}

-- `str(n)`: the decimal digits. The number itself is fuel enough.
unfoldable pub decimal_digits : ℕ → ℕ → Text
decimal_digits zero n = (48 + n % 10) ∷ []
decimal_digits (suc f) n =
    let more = decimal_digits f (n / 10) in
    if ltb n 10 then (48 + n) ∷ [] else more ++ (48 + n % 10) ∷ []

unfoldable pub decimal : ℕ → Text
unfolding decimal_digits
decimal n = decimal_digits n n

-- The loop `while name in taken: n += 1` over the numbered names.
unfoldable pub first_free : (Text → Bool) → (ℕ → Text) → ℕ → ℕ → Text
first_free taken name zero n = name n
first_free taken name (suc f) n = elim (taken (name n)) [
  | true ↦ first_free taken name f (suc n)
  | false ↦ name n
]
