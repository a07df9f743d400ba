-- ===== src/Web3/Transactions/Recovery.antt =====
-- What happens to a transaction that was sent: `sign_and_broadcast_checked`, `recover`, `confirm`,
-- and the emergency stop. `confirm` and the emergency stop take no lock.
use astra_ai_agent.Prelude.{
  Bool, true, false, ◌&&◌, Option, none, some, List, [], ◌∷◌, ◌++◌, String, map, if◌then◌else◌,
}
use astra_ai_agent.Web3.Transactions.State.{
  Status, prepared, authorized, signed, broadcast, confirmed, failed, rejected, cancelled, Stamp,
  Tx, emergency_stopped, emergency_resumed, Manager, Error, failed_error, Result, ok, err, Method,
  ◌>>=◌, pure, gets, find, update,
}
use astra_ai_agent.Web3.Transactions.Network.{
  Receipt, succeeded, reverted, unclear, Rpc, Vault, chain_by_id,
}
use astra_ai_agent.Web3.Transactions.Lifecycle.{Reply, unknown, info, moved, pending}
use astra_ai_agent.Web3.Transactions.Sending.{sign_and_broadcast}

abbrev pub is_final : Status → Bool
is_final confirmed = true
is_final failed = true
is_final _ = false

abbrev pub checked_found : Rpc → Option Vault → String → Stamp → Option Tx → Method Reply
checked_found rpc vault tx_id now none = pure (unknown tx_id)
checked_found rpc vault tx_id now (some r) =
    if is_final r.status
    then pure (moved tx_id r.status)
    else sign_and_broadcast rpc vault tx_id now

unfoldable pub sign_and_broadcast_checked : Rpc → Option Vault → String → Stamp → Method Reply
sign_and_broadcast_checked rpc vault tx_id now = do
  checked_found rpc vault tx_id now (← gets (λ m. find tx_id m.rows))

-- The handler in `recover`: the error is written into the row.
abbrev pub note_error : String → Stamp → (Error → String) → Result Reply × Manager → Manager
note_error tx_id now text (ok _, m) = m
note_error tx_id now text (err e, m) = record m {
  rows = update tx_id (λ r. record r { error = text e; updated_at = now }) m.rows;
}

abbrev pub is_in_flight : Status → Bool
is_in_flight signed = true
is_in_flight broadcast = true
is_in_flight authorized = true
is_in_flight _ = false

unfoldable pub in_flight : List Tx → List String
in_flight [] = []
in_flight (r ∷ rs) = if is_in_flight r.status then r.tx_id ∷ in_flight rs else in_flight rs

-- The loop of `recover`, over the rows that were in flight when it began. `text` is
-- `str(exc)[:200]`, and the endpoints may answer each row differently.
unfoldable pub recover_all :
    (String → Rpc) → Option Vault → (Error → String) → Stamp → List String → Manager → Manager
recover_all rpc vault text now [] m = m
recover_all rpc vault text now (k ∷ ks) m =
    recover_all rpc vault text now ks
      (note_error k now text (sign_and_broadcast_checked (rpc k) vault k now m))

unfoldable pub recover :
    (String → Rpc) → Option Vault → (Error → String) → Stamp → Manager → Manager
unfolding recover_all in_flight
recover rpc vault text now m = recover_all rpc vault text now (in_flight m.rows) m

-- `confirm`: one round of polling for each observation, which is what the endpoints answered and
-- whether the deadline was past. `none` is a loop that is still polling when they end.
abbrev pub mark_status : String → Status → String → Stamp → Manager → Manager
mark_status tx_id s e now m = record m {
  rows = update tx_id (λ r. record r { status = s; error = e; updated_at = now }) m.rows;
}

unfoldable pub poll :
    String
    → String
    → Bool
    → Stamp
    → List (Option Receipt × Bool)
    → Manager
    → Option (Result Reply × Manager)
poll tx_id h timed now [] m = none
poll tx_id h timed now ((rcpt, late) ∷ rounds) m =
    let again =
      if timed && late then some (ok (pending tx_id h), m) else poll tx_id h timed now rounds m in
    elim rcpt [
      | some succeeded ↦ some (ok (moved tx_id confirmed), mark_status tx_id confirmed "" now m)
      | some reverted ↦
          some (err failed_error, mark_status tx_id failed "tx reverted on-chain" now m)
      | some unclear ↦ again
      | none ↦ again
    ]

abbrev pub is_settled : Status → Bool
is_settled confirmed = true
is_settled failed = true
is_settled rejected = true
is_settled _ = false

abbrev pub poll_chain :
    String
    → String
    → Bool
    → Stamp
    → List (Option Receipt × Bool)
    → Result (List String)
    → Manager
    → Option (Result Reply × Manager)
poll_chain tx_id h timed now rounds (err e) m = some (err e, m)
poll_chain tx_id h timed now rounds (ok _) m = poll tx_id h timed now rounds m

abbrev pub poll_hash :
    String
    → Tx
    → Bool
    → Stamp
    → List (Option Receipt × Bool)
    → Option String
    → Manager
    → Option (Result Reply × Manager)
poll_hash tx_id r timed now rounds none m = some (ok (moved tx_id r.status), m)
poll_hash tx_id r timed now rounds (some h) m =
    poll_chain tx_id h timed now rounds (chain_by_id r.chain_id) m

abbrev pub confirm_row :
    String
    → Bool
    → Stamp
    → List (Option Receipt × Bool)
    → Option Tx
    → Manager
    → Option (Result Reply × Manager)
confirm_row tx_id timed now rounds none m = some (ok (unknown tx_id), m)
confirm_row tx_id timed now rounds (some r) m =
    let waiting = poll_hash tx_id r timed now rounds r.submitted_hash m in
    if is_settled r.status then some (ok (info r), m) else waiting

unfoldable pub confirm :
    String → Bool → Stamp → List (Option Receipt × Bool) → Manager → Option (Result Reply × Manager)
confirm tx_id timed now rounds m = confirm_row tx_id timed now rounds (find tx_id m.rows) m

abbrev pub cancel_row : Stamp → Tx → Tx
cancel_row now r =
    let c = record r { status = cancelled; error = "emergency stop"; updated_at = now } in
    elim r.status [ prepared ↦ c | authorized ↦ c | signed ↦ c | _ ↦ r ]

unfoldable pub emergency_stop : Stamp → Manager → Manager
emergency_stop now m = record m {
  stopped = true;
  rows = map (cancel_row now) m.rows;
  events = m.events ++ emergency_stopped ∷ [];
}

unfoldable pub emergency_resume : Manager → Manager
emergency_resume m = record m { stopped = false; events = m.events ++ emergency_resumed ∷ [] }
