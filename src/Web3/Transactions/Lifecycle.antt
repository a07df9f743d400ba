-- ===== src/Web3/Transactions/Lifecycle.antt =====
-- `create`, `authorize`, `reject` and `status` of `TransactionManager`. Each runs under the manager's
-- lock, so it is one step.
use astra_ai_agent.Prelude.{
  Bool, true, false, not, Option, none, some, List, [], ◌∷◌, ◌++◌, String, str_eq, if◌then◌else◌,
}
use astra_ai_agent.Prelude.Int.{ℤ, pos, ◌+ℤ◌, truthy_ℤ}
use astra_ai_agent.Web3.Policy.{TxRequest, Verdict, ask, block, evaluate}
use astra_ai_agent.Web3.Transactions.State.{
  Status, prepared, validated, authorized, confirmed, rejected, Stamp, Tx, tx_prepared, tx_rejected,
  Manager, policy_error, rejected_error, duplicate, Method, ◌>>=◌, ◌>>◌, pure, raise, gets, modify,
  raise_if, find, set_row, emit,
}

-- What a method returns. `info` is `status()`: a view of the row.
pub data Reply : Type 0 where
  unknown : String → Reply
  info : Tx → Reply
  moved : String → Status → Reply
  sent_as : String → String → Reply
  recovered : String → String → Reply
  pending : String → String → Reply

-- `_check_active`
abbrev pub check_active : Method Unit
check_active = do
  raise_if (← gets (λ m. m.stopped)) policy_error
  raise_if (← gets (λ m. m.paused)) policy_error

-- The sum of `_spent_today`: the rows that were confirmed and last changed today.
unfoldable pub confirmed_today : String → List Tx → ℤ
confirmed_today day [] = pos 0
confirmed_today day (r ∷ rs) = elim r.status [
  | confirmed ↦
      if str_eq r.updated_at.day day
      then r.value_wei +ℤ confirmed_today day rs
      else confirmed_today day rs
  | _ ↦ confirmed_today day rs
]

unfoldable pub spent_today : String → Manager → ℤ
spent_today day m =
    if truthy_ℤ m.cfg.max_daily_tx_value_wei then confirmed_today day m.rows else pos 0

-- The row that `create` inserts.
abbrev pub prepared_row : TxRequest → String → Bool → Stamp → Tx
prepared_row req tx_id requires_approval now = record {
  tx_id = tx_id;
  status = prepared;
  chain_id = req.chain_id;
  from_address = req.from_address;
  to_address = req.to_address;
  value_wei = req.value_wei;
  data_hex = req.data_hex;
  gas_limit = req.gas_limit;
  max_fee_per_gas = req.max_fee_per_gas;
  max_priority_fee_per_gas = req.max_priority_fee_per_gas;
  nonce = req.nonce;
  signed_raw_wrapped = none;
  submitted_hash = none;
  error = "";
  kind = "send";
  authorized_by = "";
  requires_approval = requires_approval;
  created_at = now;
  updated_at = now;
  broadcast_at = none;
}

-- The insert, refused by the UNIQUE constraint on `tx_id`.
abbrev pub insert_row : Tx → Option Tx → Method Unit
insert_row r (some _) = raise duplicate
insert_row r none = modify (λ m. record m { rows = m.rows ++ r ∷ [] })

abbrev pub prepare : TxRequest → String → Stamp → Verdict → Method Reply
prepare req tx_id now block = raise policy_error
prepare req tx_id now verdict = do
  let r = prepared_row req tx_id (elim verdict [ ask ↦ true | _ ↦ false ]) now
  insert_row r (← gets (λ m. find tx_id m.rows))
  emit (tx_prepared tx_id verdict)
  pure (info r)

-- `create`, with the fresh id that uuid4 gives.
unfoldable pub create : TxRequest → String → Stamp → Method Reply
create req tx_id now = do
  raise_if (← gets (λ m. m.stopped)) policy_error
  verdict ← gets (λ m. (evaluate m.cfg req (spent_today now.day m)).verdict)
  prepare req tx_id now verdict

abbrev pub is_waiting : Status → Bool
is_waiting prepared = true
is_waiting validated = true
is_waiting _ = false

-- `authorize` of a row that was found.
abbrev pub authorize_row : String → Stamp → Option Tx → Method Reply
authorize_row tx_id now none = raise rejected_error
authorize_row tx_id now (some r) = do
  raise_if (not (is_waiting r.status)) rejected_error
  set_row tx_id (λ r. record r { status = authorized; authorized_by = "policy"; updated_at = now })
  pure (moved tx_id authorized)

unfoldable pub authorize : String → Stamp → Method Reply
authorize tx_id now = do check_active; authorize_row tx_id now (← gets (λ m. find tx_id m.rows))

-- `reason` is the text after its cut to 200 characters.
abbrev pub reject_row : String → String → Stamp → Option Tx → Method Reply
reject_row tx_id reason now none = raise rejected_error
reject_row tx_id reason now (some r) = do
  raise_if (not (is_waiting r.status)) rejected_error
  set_row tx_id (λ r. record r { status = rejected; error = reason; updated_at = now })
  emit (tx_rejected tx_id reason)
  pure (moved tx_id rejected)

unfoldable pub reject : String → String → Stamp → Method Reply
reject tx_id reason now = do reject_row tx_id reason now (← gets (λ m. find tx_id m.rows))

-- `status`, and `get`
abbrev pub status_reply : String → Option Tx → Reply
status_reply tx_id none = unknown tx_id
status_reply tx_id (some r) = info r

unfoldable pub status : String → Method Reply
status tx_id = gets (λ m. status_reply tx_id (find tx_id m.rows))
