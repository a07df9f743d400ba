-- ===== src/Web3/Transactions/Tests.antt =====
-- Runs of the transaction manager, and its theorems at concrete calls.
use astra_ai_agent.Prelude.{
  ◌≤◌, ◌≡◌, ◌≢◌, inl, inr, refl, true, false, none, some, List, [], ◌∷◌, ◌++◌, String, arith,
}
use astra_ai_agent.Prelude.Int.{pos}
use astra_ai_agent.Prelude.Text.{codes, text_eq, text_mem, strip, lower}
use astra_ai_agent.Web3.Policy.{
  PolicyConfig, TxRequest, auto_mode, norm, without_prefix, chain_mem, block_reason, evaluate,
}
use astra_ai_agent.Web3.RawTx.{
  build_unsigned_eip1559, to_field, from_hex, drop_two, data_field, signing_hash_eip1559,
  signing_payload, rlp_encode, be_bytes, prefix, serialize_eip1559, append,
}
use astra_ai_agent.Web3.Transactions.State.{
  broadcast, Stamp, Tx, Manager, unavailable, ok, err, find, update,
}
use astra_ai_agent.Web3.Transactions.Network.{
  succeeded, unclear, Rpc, Vault, Signed, sign_rec, broadcast_raw, first_answer, chain_by_id,
  get_gas_price, get_nonce,
}
use astra_ai_agent.Web3.Transactions.Table.{count}
use astra_ai_agent.Web3.Transactions.Lifecycle
use astra_ai_agent.Web3.Transactions.Lifecycle.{prepared_row, info}
use astra_ai_agent.Web3.Transactions.Recovery
use astra_ai_agent.Web3.Transactions.Sending
use astra_ai_agent.Web3.Transactions.Sending.{sign_and_send}
use astra_ai_agent.Web3.Transactions.Recovery.{sign_and_broadcast_checked}
use astra_ai_agent.Web3.Transactions.Invariant.{IsCleared}
use astra_ai_agent.Web3.Transactions.Traces.{
  Call, create, authorize, sign_and_broadcast, recover, confirm, run_call, run, initial,
  sent_at_most_once, sent_only-IsCleared,
}
use astra_ai_agent.Web3.Transactions.Creation.{Created, create_lem}
use astra_ai_agent.Web3.Transactions.Stop.{emergency_stop-quiet}
use astra_ai_agent.Web3.Transactions.Race.{emergency_stop-race}
use astra_ai_agent.Web3.Transactions.Lost.{IsLost, StaysLost}
use astra_ai_agent.Web3.Transactions.Lost.Calls.{run-StaysLost}
use astra_ai_agent.Web3.Transactions.Stuck.{any_late, confirm-deadline, confirm-forever}

abbrev noon : Stamp
noon = record { day = "2025-01-01"; clock = "12:00:00" }

abbrev cfg : PolicyConfig
cfg = record {
  mode = auto_mode;
  max_tx_value_wei = pos 100;
  max_daily_tx_value_wei = pos 0;
  allowed_recipients = [];
  allowed_contracts = [];
  allowed_wallets = [];
  max_gas_limit = pos 0;
  allowed_chain_ids = [];
  daily_spent_key = "web3_daily_spent";
}

abbrev send : TxRequest
send = record {
  from_address = codes "default";
  to_address = codes "0xabcdef0123456789abcdef0123456789abcdef01";
  value_wei = pos 90;
  chain_id = pos 1;
  data_hex = [];
  gas_limit = pos 21000;
  max_fee_per_gas = pos 0;
  max_priority_fee_per_gas = pos 0;
  nonce = none;
  label = "";
}

-- Endpoints that take every transaction, and endpoints that take none.
abbrev up : Rpc
up = record {
  transaction_count = λ u a. some (pos 3);
  gas_price = λ u. some (pos 8);
  send_raw = λ u raw. some "0xhash";
  transaction_receipt = λ u h. some none;
}

abbrev refusing : Rpc
refusing = record {
  transaction_count = λ u a. some (pos 3);
  gas_price = λ u. some (pos 8);
  send_raw = λ u raw. none;
  transaction_receipt = λ u h. some none;
}

abbrev vault : Vault
vault = record {
  decrypt = λ name. some name;
  private_key = λ secret. some 5;
  sign = λ priv hash. some (1, pos 7, pos 9);
  keccak = λ bytes. [];
  seal = λ bytes. "sealed";
  unseal = λ w. some [];
  tx_hash = λ raw. "0xother";
}

abbrev calls : List Call
calls =
    create send "t1" noon
    ∷ sign_and_broadcast refusing (some vault) "t1" noon
    ∷ sign_and_broadcast up (some vault) "t1" noon
    ∷ recover (λ k. up) (some vault) (λ e. "again") noon
    ∷ []

sent_at_most_once_example : count "t1" (run calls (initial cfg)).sent ≤ 1
sent_at_most_once_example = sent_at_most_once cfg calls "t1"

was_sent : count "t1" (run calls (initial cfg)).sent ≡ 1
unfolding run run_call count find update evaluate block_reason text_eq text_mem norm without_prefix
    strip lower chain_mem Lifecycle.create Sending.sign_and_broadcast sign_and_send sign_rec
    broadcast_raw first_answer chain_by_id get_gas_price get_nonce Recovery.recover
    Recovery.recover_all Recovery.in_flight sign_and_broadcast_checked build_unsigned_eip1559
    to_field from_hex drop_two data_field signing_hash_eip1559 signing_payload rlp_encode be_bytes
    prefix serialize_eip1559 append
was_sent = refl

sent_only-IsCleared_example :
    (r : Tx) × (find "t1" (run calls (initial cfg)).rows ≡ some r) × IsCleared r
sent_only-IsCleared_example = sent_only-IsCleared cfg calls "t1" (omega (arith, was_sent))

no_rows : find "t1" (initial cfg).rows ≡ none
unfolding find
no_rows = refl

create_lem_example : Created send "t1" noon (initial cfg)
create_lem_example = create_lem send "t1" noon (initial cfg) no_rows

emergency_stop-quiet_example :
    ((run calls (Recovery.emergency_stop noon (initial cfg))).stopped ≡ true)
    × ((run calls (Recovery.emergency_stop noon (initial cfg))).sent ≡ [])
emergency_stop-quiet_example = emergency_stop-quiet (initial cfg) noon calls tt

abbrev row : Tx
row = prepared_row send "t1" false noon

abbrev one_row : Manager
one_row = record (initial cfg) { rows = row ∷ [] }

found_row : find "t1" one_row.rows ≡ some row
unfolding find
found_row = refl

abbrev urls : List String
urls = "https://rpc.example" ∷ []

-- The bytes that are signed for the row.
abbrev signature : Signed
signature = record {
  nonce = pos 3;
  raw =
      2 ∷ 0xE1 ∷ 1 ∷ 3 ∷ 0x80 ∷ 8 ∷ 0x82 ∷ 0x52 ∷ 0x08 ∷ 0x94 ∷ 0xAB ∷ 0xCD ∷ 0xEF ∷ 0x01 ∷ 0x23
      ∷ 0x45 ∷ 0x67 ∷ 0x89 ∷ 0xAB ∷ 0xCD ∷ 0xEF ∷ 0x01 ∷ 0x23 ∷ 0x45 ∷ 0x67 ∷ 0x89 ∷ 0xAB ∷ 0xCD
      ∷ 0xEF ∷ 0x01 ∷ 0x5A ∷ 0x80 ∷ 1 ∷ 7 ∷ 9 ∷ [];
}

signed_up : sign_rec up (some vault) urls row ≡ ok signature
unfolding sign_rec build_unsigned_eip1559 to_field from_hex drop_two data_field signing_hash_eip1559
    signing_payload rlp_encode be_bytes prefix serialize_eip1559 append first_answer get_gas_price
    get_nonce text_eq
signed_up = refl

signed_refusing : sign_rec refusing (some vault) urls row ≡ ok signature
unfolding sign_rec build_unsigned_eip1559 to_field from_hex drop_two data_field signing_hash_eip1559
    signing_payload rlp_encode be_bytes prefix serialize_eip1559 append first_answer get_gas_price
    get_nonce text_eq
signed_refusing = refl

accepted : broadcast_raw up urls signature.raw ≡ ok "0xhash"
unfolding broadcast_raw first_answer
accepted = refl

refused : broadcast_raw refusing urls signature.raw ≡ err unavailable
unfolding broadcast_raw first_answer
refused = refl

emergency_stop-race_example :
    ((sign_and_send up (some vault) urls row noon (Recovery.emergency_stop noon one_row)).1.stopped
      ≡ true)
    × ((sign_and_send up (some vault) urls row noon (Recovery.emergency_stop noon one_row)).1.sent
        ≡ [] ++ ("t1", signature.raw) ∷ [])
    × ((r : Tx) × (find "t1"
            (sign_and_send up
              (some vault)
              urls
              row
              noon
              (Recovery.emergency_stop noon one_row)).1.rows
          ≡ some r)
        × (r.status ≡ broadcast))
emergency_stop-race_example =
    emergency_stop-race up urls row noon (some vault) one_row noon signature "0xhash" found_row
      signed_up accepted

-- Every endpoint refuses the broadcast.
abbrev left_signed : Manager
left_signed =
    run (create send "t1" noon ∷ sign_and_broadcast refusing (some vault) "t1" noon ∷ [])
      (initial cfg)

left-IsLost : IsLost (find "t1" left_signed.rows)
unfolding run run_call find update evaluate block_reason text_eq text_mem norm without_prefix strip
    lower chain_mem Lifecycle.create Sending.sign_and_broadcast sign_and_send sign_rec broadcast_raw
    first_answer chain_by_id get_gas_price get_nonce build_unsigned_eip1559 to_field from_hex
    drop_two data_field signing_hash_eip1559 signing_payload rlp_encode be_bytes prefix
    serialize_eip1559 append
left-IsLost = (inl refl, refl)

abbrev later_calls : List Call
later_calls =
    recover (λ k. up) (some vault) (λ e. "again") noon
    ∷ sign_and_broadcast up (some vault) "t1" noon
    ∷ confirm "t1" false noon ((some succeeded, false) ∷ [])
    ∷ authorize "t1" noon
    ∷ []

run-StaysLost_example : StaysLost "t1" left_signed (run later_calls left_signed)
run-StaysLost_example = run-StaysLost "t1" later_calls left_signed left-IsLost

abbrev sent_row : Tx
sent_row = record row { status = broadcast; submitted_hash = some "0xhash" }

abbrev sent_out : Manager
sent_out = record one_row { rows = sent_row ∷ [] }

found_out : find "t1" sent_out.rows ≡ some sent_row
unfolding find
found_out = refl

mainnet : (urls : List String) × (chain_by_id (pos 1) ≡ ok urls)
unfolding chain_by_id
mainnet = (_, refl)

confirm-forever_example :
    Recovery.confirm "t1" false noon ((none, true) ∷ (some unclear, true) ∷ []) sent_out ≡ none
confirm-forever_example =
    confirm-forever "t1" noon ((none, true) ∷ (some unclear, true) ∷ []) sent_out sent_row "0xhash"
      mainnet.0 found_out refl refl mainnet.1 (inl refl, (inr refl, tt))

was_late : any_late ((none, false) ∷ (none, true) ∷ []) ≡ true
unfolding any_late
was_late = refl

confirm-deadline_example :
    Recovery.confirm "t1" true noon ((none, false) ∷ (none, true) ∷ []) sent_out ≢ none
confirm-deadline_example =
    confirm-deadline "t1" noon ((none, false) ∷ (none, true) ∷ []) sent_out was_late
