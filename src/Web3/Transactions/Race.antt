-- ===== src/Web3/Transactions/Race.antt =====
-- The emergency stop takes no lock, so it can fall between the guards of `sign_and_broadcast` and
-- the sending behind them.
use astra_ai_agent.Prelude.{
  ◌≡◌, refl, true, Option, none, some, List, [], ◌∷◌, ◌++◌, String, arith, eq_iff,
}
use astra_ai_agent.Web3.Transactions.State.{broadcast, Stamp, Tx, Manager, ok, find}
use astra_ai_agent.Web3.Transactions.Network.{Rpc, Vault, Signed, sign_rec, broadcast_raw}
use astra_ai_agent.Web3.Transactions.Sending.{sign_and_send}
use astra_ai_agent.Web3.Transactions.Recovery.{emergency_stop, cancel_row}
use astra_ai_agent.Web3.Transactions.Table.{find-update, find-map}
use astra_ai_agent.Web3.Transactions.Sends.{sent_once, rows_sent, send_change}

module _ (rpc : Rpc) (urls : List String) (rec : Tx) (now : Stamp) where
  still_stopped :
      (vault : Option Vault) (m : Manager) (sig : Signed) (hash : String)
      → sign_rec rpc vault urls rec ≡ ok sig
      → broadcast_raw rpc urls sig.raw ≡ ok hash
      → (sign_and_send rpc vault urls rec now m).1.stopped ≡ m.stopped
  unfolding sign_and_send
  still_stopped none m sig hash q b = ground arith
  still_stopped (some vault) m sig hash q b = ground arith

  send_keeps :
      (vault : Option Vault) (sig : Signed) (hash : String) (r : Tx)
      → (send_change vault sig hash now r).tx_id ≡ r.tx_id
  send_keeps none sig hash r = refl
  send_keeps (some vault) sig hash r = refl

  -- The row was found and its guards passed; then the emergency stop ran; then the lock's holder went
  -- on, and signing and the network succeeded. The manager is stopped, and yet the raw transaction
  -- was handed to the network and its row, cancelled or not, ends in BROADCAST.
  pub emergency_stop-race :
      (vault : Option Vault) (m : Manager) (later : Stamp) (sig : Signed) (hash : String)
      → find rec.tx_id m.rows ≡ some rec
      → sign_rec rpc vault urls rec ≡ ok sig
      → broadcast_raw rpc urls sig.raw ≡ ok hash
      → let m' = (sign_and_send rpc vault urls rec now (emergency_stop later m)).1 in
        (m'.stopped ≡ true)
        × (m'.sent ≡ m.sent ++ (rec.tx_id, sig.raw) ∷ [])
        × ((r : Tx) × (find rec.tx_id m'.rows ≡ some r) × (r.status ≡ broadcast))
  unfolding emergency_stop
  emergency_stop-race vault m later sig hash found q b = (
    still_stopped vault (emergency_stop later m) sig hash q b,
    sent_once rpc urls rec now (emergency_stop later m) vault sig q,
    (
      send_change vault sig hash now (cancel_row later rec),
      rw
          (
            rows_sent rpc urls rec now (emergency_stop later m) vault sig hash q b,
            find-update rec.tx_id rec.tx_id (send_change vault sig hash now)
                (send_keeps vault sig hash),
            find-map (cancel_row later) (λ r. ground arith) rec.tx_id m.rows,
            found,
          )
          (ground (arith, eq_iff rec.tx_id rec.tx_id)),
      refl,
    ),
  )
