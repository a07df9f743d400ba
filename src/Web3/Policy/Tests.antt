-- ===== src/Web3/Policy/Tests.antt =====
-- Runs of the policy, and its theorems at concrete requests.
use astra_ai_agent.Prelude.{◌≡◌, ◌≢◌, ◌↔◌, refl, none, [], ◌∷◌}
use astra_ai_agent.Prelude.Int.{pos, ◌+ℤ◌}
use astra_ai_agent.Prelude.Text.{Text, codes, text_eq, text_mem, strip, lower}
use astra_ai_agent.Web3.Policy.{
  PolicyConfig, TxRequest, allow, ask, block, auto_mode, norm, without_prefix, chain_mem,
  block_reason, evaluate,
}
use astra_ai_agent.Web3.Policy.Gate.{WithinPolicy, evaluate-verdict}

abbrev recipient : Text
recipient = codes "0xAbCdEf0123456789aBcDeF0123456789abcdef01"

abbrev limited : PolicyConfig
limited = record {
  mode = auto_mode;
  max_tx_value_wei = pos 100;
  max_daily_tx_value_wei = pos 150;
  allowed_recipients = codes "abcdef0123456789abcdef0123456789abcdef01" ∷ [];
  allowed_contracts = [];
  allowed_wallets = [];
  max_gas_limit = pos 0;
  allowed_chain_ids = [];
  daily_spent_key = "web3_daily_spent";
}

abbrev send : TxRequest
send = record {
  from_address = codes "default";
  to_address = recipient;
  value_wei = pos 90;
  chain_id = pos 1;
  data_hex = [];
  gas_limit = pos 21000;
  max_fee_per_gas = pos 0;
  max_priority_fee_per_gas = pos 0;
  nonce = none;
  label = "";
}

send_allowed : (evaluate limited send (pos 60)).verdict ≡ allow
unfolding evaluate block_reason text_eq text_mem norm without_prefix strip lower chain_mem ◌+ℤ◌
send_allowed = refl

send_over_daily : (evaluate limited send (pos 61)).reason ≡ "value would exceed daily send limit"
unfolding evaluate block_reason text_eq text_mem norm without_prefix strip lower chain_mem ◌+ℤ◌
send_over_daily = refl

evaluate-verdict_example :
    (((evaluate limited send (pos 60)).verdict ≡ allow)
      ↔ (WithinPolicy limited send (pos 60) × (limited.mode ≡ auto_mode)))
    × (((evaluate limited send (pos 60)).verdict ≡ ask)
        ↔ (WithinPolicy limited send (pos 60) × (limited.mode ≢ auto_mode)))
    × (((evaluate limited send (pos 60)).verdict ≡ block) ↔ (¬ WithinPolicy limited send (pos 60)))
evaluate-verdict_example = evaluate-verdict limited send (pos 60)
