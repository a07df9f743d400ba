-- ===== src/Web3/Transactions/Sending.antt =====
-- `sign_and_broadcast` of `TransactionManager`. It runs under the manager's lock, so it is one step.
use astra_ai_agent.Prelude.{
  Bool, true, false, not, Option, none, some, List, [], ◌∷◌, ◌++◌, String, if◌then◌else◌,
}
use astra_ai_agent.Web3.RawTx.{Bytes}
use astra_ai_agent.Web3.Transactions.State.{
  Status, prepared, authorized, signed, broadcast, confirmed, Stamp, Tx, tx_submitted, tx_broadcast,
  policy_error, rejected_error, failed_error, bad_value, keystore_error, Result, ok, err, Method,
  ◌>>=◌, ◌>>◌, pure, raise, lift, gets, modify, raise_if, find, set_row, emit,
}
use astra_ai_agent.Web3.Transactions.Network.{
  Rpc, Vault, receipt, broadcast_raw, chain_by_id, sign_rec,
}
use astra_ai_agent.Web3.Transactions.Lifecycle.{Reply, sent_as, recovered, check_active, status}

-- Already submitted: a hash, and the status BROADCAST or CONFIRMED.
abbrev pub is_submitted : Tx → Bool
is_submitted r = elim r.submitted_hash [
  | none ↦ false
  | some _ ↦ elim r.status [ broadcast ↦ true | confirmed ↦ true | _ ↦ false ]
]

abbrev pub is_signable : Status → Bool
is_signable authorized = true
is_signable prepared = true
is_signable _ = false

-- `status == "PREPARED" and rec.get("requires_approval")`
abbrev pub needs_approval : Tx → Bool
needs_approval r = elim r.status [ prepared ↦ r.requires_approval | _ ↦ false ]

-- The hash of the bytes that were sealed before, if there are any.
abbrev pub sealed_hash : Option Vault → Option String → Result (Option String)
sealed_hash vault none = ok none
sealed_hash none (some w) = err bad_value
sealed_hash (some vault) (some w) = elim (vault.unseal w) [
  | none ↦ err keystore_error
  | some raw ↦ ok (some (vault.tx_hash raw))
]

abbrev pub first_only : List String → List String
first_only [] = []
first_only (u ∷ _) = u ∷ []

-- Whether those bytes are on chain. `raw_tx.receipt` swallows the failures of its endpoint, so the
-- loop over the first three endpoints ends at the first.
abbrev pub on_chain : Rpc → List String → Option String → Option String
on_chain rpc urls none = none
on_chain rpc urls (some h) = elim (receipt rpc (first_only urls) h) [
  | none ↦ none
  | some _ ↦ some h
]

-- The seal of the signed bytes.
abbrev pub seal_row : Option Vault → String → Bytes → Stamp → Method Unit
seal_row none tx_id raw now = pure tt
seal_row (some vault) tx_id raw now =
    set_row tx_id (λ r. record r { signed_raw_wrapped = some (vault.seal raw); updated_at = now })

-- Sign, seal, broadcast: the part of `sign_and_broadcast` behind its guards.
unfoldable pub sign_and_send : Rpc → Option Vault → List String → Tx → Stamp → Method Reply
sign_and_send rpc vault urls rec now = do
  set_row rec.tx_id (λ r. record r { status = authorized; error = ""; updated_at = now })
  sig ← lift (sign_rec rpc vault urls rec)
  seal_row vault rec.tx_id sig.raw now
  set_row rec.tx_id (λ r. record r { status = signed; nonce = some sig.nonce; updated_at = now })
  emit (tx_submitted rec.tx_id sig.nonce)
  modify (λ m. record m { sent = m.sent ++ (rec.tx_id, sig.raw) ∷ [] })
  hash ← lift (broadcast_raw rpc urls sig.raw)
  set_row rec.tx_id (λ r. record r {
    status = broadcast;
    submitted_hash = some hash;
    broadcast_at = some now;
    updated_at = now;
  })
  emit (tx_broadcast rec.tx_id hash)
  pure (sent_as rec.tx_id hash)

-- Recovered: the bytes are mined already.
abbrev pub mark_recovered : String → String → Stamp → Method Reply
mark_recovered tx_id h now = do
  set_row tx_id (λ r. record r {
    status = confirmed;
    submitted_hash = some h;
    error = "recovered: already on chain";
    updated_at = now;
  })
  pure (recovered tx_id h)

abbrev pub send_unless_mined :
    Rpc → Option Vault → List String → Tx → Stamp → Option String → Method Reply
send_unless_mined rpc vault urls rec now (some h) = mark_recovered rec.tx_id h now
send_unless_mined rpc vault urls rec now none = sign_and_send rpc vault urls rec now

-- `sign_and_broadcast` of a row that is not submitted yet: its guards, then the check on chain.
abbrev pub send_row : Rpc → Option Vault → Tx → Stamp → Method Reply
send_row rpc vault rec now = do
  raise_if (not (is_signable rec.status)) failed_error
  raise_if (needs_approval rec) policy_error
  urls ← lift (chain_by_id rec.chain_id)
  det_hash ← lift (sealed_hash vault rec.signed_raw_wrapped)
  send_unless_mined rpc vault urls rec now (on_chain rpc urls det_hash)

abbrev pub sign_found : Rpc → Option Vault → Stamp → Option Tx → Method Reply
sign_found rpc vault now none = raise rejected_error
sign_found rpc vault now (some rec) =
    if is_submitted rec then status rec.tx_id else send_row rpc vault rec now

unfoldable pub sign_and_broadcast : Rpc → Option Vault → String → Stamp → Method Reply
unfolding status
sign_and_broadcast rpc vault tx_id now = do
  check_active
  sign_found rpc vault now (← gets (λ m. find tx_id m.rows))
