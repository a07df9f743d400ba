-- ===== src/Web3/Policy/Mode.antt =====
-- The mode of the policy: how it is read from the configuration and how the operator changes it.
use astra_ai_agent.Prelude.{◌≡◌, ◌↔◌, ◌⊎◌, inl, inr, Bool-cases, none, some, arith}
use astra_ai_agent.Prelude.Text.{Text, text_mem, text_eq_iff, strip, upper}
use astra_ai_agent.Web3.Policy.{
  PolicyConfig, confirm_mode, auto_mode, known_modes, normalize_mode, set_mode,
}

-- The two modes that the policy knows.
abbrev pub IsMode : Text → Type 0
IsMode m = (m ≡ confirm_mode) ⊎ (m ≡ auto_mode)

-- With the fallback CONFIRM a configured mode is read as one of the two modes, and as
-- AUTO exactly if the text, trimmed and in capitals, is AUTO.
pub normalize_mode-auto :
    (raw : Text)
    → IsMode (normalize_mode raw confirm_mode)
      × ((normalize_mode raw confirm_mode ≡ auto_mode) ↔ (upper (strip raw) ≡ auto_mode))
unfolding normalize_mode text_mem
normalize_mode-auto raw =
    ground (
      arith,
      text_eq_iff (upper (strip raw)) confirm_mode,
      text_eq_iff (upper (strip raw)) auto_mode,
    )

-- `set_mode` accepts exactly the two modes, in any case of letters. It then changes the mode and
-- leaves every limit and allowlist as it was; any other text is an error.
pub set_mode_lem :
    (cfg : PolicyConfig) (mode : Text)
    → (IsMode (upper mode) × (set_mode cfg mode ≡ some (record cfg { mode = upper mode })))
      ⊎ ((¬ IsMode (upper mode)) × (set_mode cfg mode ≡ none))
unfolding set_mode text_mem
set_mode_lem cfg mode = elim (Bool-cases (text_mem (upper mode) known_modes)) [
  | inl e ↦
      inl
        (ground (arith, text_eq_iff (upper mode) confirm_mode, text_eq_iff (upper mode) auto_mode))
  | inr e ↦
      inr
        (ground (arith, text_eq_iff (upper mode) confirm_mode, text_eq_iff (upper mode) auto_mode))
]
