-- ===== src/Web3/Policy.antt =====
-- astra/web3/policy.py: the deterministic policy that every send must pass. An address or a mode is
-- the list of its code points; Python's ints are `ℤ`; a frozenset is the list of its members.
pub mod Gate
pub mod Mode
mod Tests
use astra_ai_agent.Prelude.{
  Bool, true, false, not, ◌&&◌, ◌||◌, Option, none, some, List, [], ◌∷◌, String, ◌==◌, length,
  if◌then◌else◌,
}
use astra_ai_agent.Prelude.Int.{ℤ, pos, ◌+ℤ◌, ltb_ℤ, eqb_ℤ, truthy_ℤ}
use astra_ai_agent.Prelude.Text.{Text, codes, text_eq, text_mem, strip, lower, upper}

abbrev pub default_supported_chains : List ℤ
default_supported_chains =
    pos 1 ∷ pos 8453 ∷ pos 137 ∷ pos 56 ∷ pos 42161 ∷ pos 10 ∷ pos 11155111 ∷ []

pub record PolicyConfig : Type 0 where
  pub mode : Text
  pub max_tx_value_wei : ℤ
  pub max_daily_tx_value_wei : ℤ
  pub allowed_recipients : List Text
  pub allowed_contracts : List Text
  pub allowed_wallets : List Text
  pub max_gas_limit : ℤ
  pub allowed_chain_ids : List ℤ
  pub daily_spent_key : String

pub record TxRequest : Type 0 where
  pub from_address : Text
  pub to_address : Text
  pub value_wei : ℤ
  pub chain_id : ℤ
  pub data_hex : Text
  pub gas_limit : ℤ
  pub max_fee_per_gas : ℤ
  pub max_priority_fee_per_gas : ℤ
  pub nonce : Option ℤ
  pub label : String

abbrev pub confirm_mode : Text
confirm_mode = codes "CONFIRM"

abbrev pub auto_mode : Text
auto_mode = codes "AUTO"

abbrev pub known_modes : List Text
known_modes = confirm_mode ∷ auto_mode ∷ []

unfoldable pub normalize_mode : Text → Text → Text
normalize_mode raw default =
    let m = upper (strip raw) in if text_mem m known_modes then m else default

-- `a[2:] if a.startswith("0x") else a`
unfoldable pub without_prefix : Text → Text
without_prefix (a ∷ b ∷ s) = if (a == b'0') && (b == b'x') then s else a ∷ b ∷ s
without_prefix s = s

-- `_norm`, and its public name `normalize_address`
unfoldable pub norm : Text → Text
norm addr = without_prefix (lower (strip addr))

-- The strings 'allow', 'ask' and 'block'.
pub data Verdict : Type 0 where
  allow ask block : Verdict

pub record Decision : Type 0 where
  pub verdict : Verdict
  pub reason : String
  pub mode : Text

-- `Decision.__bool__`
unfoldable pub is_permitted : Decision → Bool
is_permitted d = elim d.verdict [ block ↦ false | _ ↦ true ]

-- `TransactionPolicyEngine.set_mode`: `none` is the TransactionPolicyError. The engine's only state
-- is its configuration.
unfoldable pub set_mode : PolicyConfig → Text → Option PolicyConfig
set_mode cfg mode =
    let m = upper mode in if text_mem m known_modes then some (record cfg { mode = m }) else none

module _ {A : Type 0} where
  -- `bool(frozenset)`
  abbrev pub nonempty : List A → Bool
  nonempty [] = false
  nonempty (_ ∷ _) = true

-- `chain_id in allowed_chains`
unfoldable pub chain_mem : ℤ → List ℤ → Bool
chain_mem c [] = false
chain_mem c (d ∷ ds) = eqb_ℤ c d || chain_mem c ds

-- `cfg.allowed_chain_ids or DEFAULT_SUPPORTED_CHAINS`
abbrev pub allowed_chains : PolicyConfig → List ℤ
allowed_chains cfg =
    if nonempty cfg.allowed_chain_ids then cfg.allowed_chain_ids else default_supported_chains

-- A set that is empty admits everything.
abbrev pub outside : List Text → Text → Bool
outside allowed addr = nonempty allowed && not (text_mem (norm addr) allowed)

-- `limit and value > limit`
abbrev pub exceeds : ℤ → ℤ → Bool
exceeds limit value = truthy_ℤ limit && ltb_ℤ limit value

-- The first guard that fails gives its reason; `none` is a send within the policy.
unfoldable pub block_reason : PolicyConfig → TxRequest → ℤ → Option String
block_reason cfg req spent =
    if outside cfg.allowed_wallets req.from_address
    then some "sender wallet is not allowlisted"
    else if outside cfg.allowed_recipients req.to_address
    then some "recipient is not allowlisted"
    else if not (nonempty req.to_address) || not (length (norm req.to_address) == 40)
    then some "malformed recipient address"
    else if ltb_ℤ req.value_wei (pos 0)
    then some "negative value not allowed"
    else if exceeds cfg.max_tx_value_wei req.value_wei
    then some "value exceeds per-transaction limit"
    else if exceeds cfg.max_daily_tx_value_wei (spent +ℤ req.value_wei)
    then some "value would exceed daily send limit"
    else if exceeds cfg.max_gas_limit req.gas_limit
    then some "gas limit exceeds policy maximum"
    else if nonempty req.data_hex && outside cfg.allowed_contracts req.to_address
    then some "contract call target not allowlisted"
    else if not (chain_mem req.chain_id (allowed_chains cfg))
    then some "chain id not supported"
    else none

-- `TransactionPolicyEngine.evaluate`
unfoldable pub evaluate : PolicyConfig → TxRequest → ℤ → Decision
evaluate cfg req spent = elim (block_reason cfg req spent) [
  | some r ↦ record { verdict = block; reason = r; mode = cfg.mode }
  | none ↦
      if text_eq cfg.mode auto_mode
      then record { verdict = allow; reason = "authorized (AUTO)"; mode = cfg.mode }
      else record { verdict = ask; reason = "within policy limits; confirm"; mode = cfg.mode }
]
