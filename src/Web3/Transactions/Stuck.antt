-- ===== src/Web3/Transactions/Stuck.antt =====
-- What an attempt to send leaves when every endpoint refuses, and a poll without a deadline.
use astra_ai_agent.Prelude.{
  ◌≡◌, refl, true, false, Bool, ◌||◌, ◌≢◌, ◌⊎◌, inl, inr, Option, none, some, List, [], ◌∷◌, ◌++◌,
  String, arith, eq_iff, Option-cases,
}
use astra_ai_agent.Web3.Transactions.State.{signed, Stamp, Tx, Manager, Error, ok, err, find}
use astra_ai_agent.Web3.Transactions.Network.{
  Receipt, unclear, Rpc, Vault, Signed, sign_rec, broadcast_raw, chain_by_id,
}
use astra_ai_agent.Web3.Transactions.Sending.{sign_and_send}
use astra_ai_agent.Web3.Transactions.Recovery.{confirm, poll, poll_hash, is_settled}
use astra_ai_agent.Web3.Transactions.Table.{find-update}
use astra_ai_agent.Web3.Transactions.Sends.{Result-cases, rows_signed, sent_once, sign_change}

sign_keeps :
    (vault : Option Vault) (sig : Signed) (now : Stamp) (r : Tx)
    → (sign_change vault sig now r).tx_id ≡ r.tx_id
sign_keeps none sig now r = refl
sign_keeps (some vault) sig now r = refl

-- The row is in the table, and signed.
abbrev pub IsStuck : String → Manager → Type 0
IsStuck k m = (r : Tx) × (find k m.rows ≡ some r) × (r.status ≡ signed)

module _ (k : String) (now : Stamp) (m : Manager) where
  -- When every endpoint refuses the raw transaction, it was handed over all the same, and its row
  -- is left signed.
  pub broadcast_refused-signed :
      (rpc : Rpc) (vault : Option Vault) (urls : List String) (rec : Tx) (sig : Signed) (e : Error)
      → find rec.tx_id m.rows ≡ some rec
      → sign_rec rpc vault urls rec ≡ ok sig
      → broadcast_raw rpc urls sig.raw ≡ err e
      → ((sign_and_send rpc vault urls rec now m).1.sent ≡ m.sent ++ (rec.tx_id, sig.raw) ∷ [])
        × IsStuck rec.tx_id (sign_and_send rpc vault urls rec now m).1
  broadcast_refused-signed rpc vault urls rec sig e found q b = (
    sent_once rpc urls rec now m vault sig q,
    (
      sign_change vault sig now rec,
      rw
          (
            rows_signed rpc urls rec now m vault sig e q b,
            find-update rec.tx_id rec.tx_id (sign_change vault sig now) (sign_keeps vault sig now),
            found,
          )
          (ground (arith, eq_iff rec.tx_id rec.tx_id)),
      refl,
    ),
  )

-- In no round an endpoint knew the outcome.
abbrev pub IsOpen : List (Option Receipt × Bool) → Type 0
IsOpen [] = Unit
IsOpen ((o, _) ∷ rounds) = ((o ≡ none) ⊎ (o ≡ some unclear)) × IsOpen rounds

-- The deadline was past in one of the rounds.
unfoldable pub any_late : List (Option Receipt × Bool) → Bool
any_late [] = false
any_late ((_, late) ∷ rounds) = late || any_late rounds

open_poll :
    (k h : String) (now : Stamp) (rounds : List (Option Receipt × Bool)) (m : Manager)
    → IsOpen rounds
    → poll k h false now rounds m ≡ none
unfolding poll
open_poll k h now [] m o = refl
open_poll k h now ((r, late) ∷ rounds) m (o, rest) = ground (arith, open_poll k h now rounds m rest)

late_poll :
    (k h : String) (now : Stamp) (rounds : List (Option Receipt × Bool)) (m : Manager)
    → any_late rounds ≡ true
    → poll k h true now rounds m ≢ none
unfolding poll any_late
late_poll k h now [] m l = ground arith
late_poll k h now ((r, late) ∷ rounds) m l = ground (arith, late_poll k h now rounds m)

module _ (k : String) (now : Stamp) (rounds : List (Option Receipt × Bool)) (m : Manager) where
  deadline_hash :
      (r : Tx) (o : Option String)
      → any_late rounds ≡ true
      → poll_hash k r true now rounds o m ≢ none
  deadline_hash r none l = ground arith
  deadline_hash r (some h) l = elim (Result-cases (chain_by_id r.chain_id)) [
    | inl (e, c) ↦ ground arith
    | inr (urls, c) ↦ ground (arith, late_poll k h now rounds m l)
  ]

  -- With a timeout, `confirm` ends at the latest in the first round after the deadline, whatever the
  -- row is and whatever the endpoints answer.
  pub confirm-deadline : any_late rounds ≡ true → confirm k true now rounds m ≢ none
  unfolding confirm
  confirm-deadline l = elim (Option-cases (find k m.rows)) [
    | inl e ↦ ground arith
    | inr (r, e) ↦ ground (arith, deadline_hash r r.submitted_hash l)
  ]

  -- Without a timeout, which is the default, `confirm` of a transaction with the hash of a broadcast,
  -- on a chain that is known, whose row is neither confirmed nor failed nor rejected, is still polling
  -- after any number of rounds in which no endpoint knows the outcome.
  pub confirm-forever :
      (r : Tx) (h : String) (urls : List String)
      → find k m.rows ≡ some r
      → is_settled r.status ≡ false
      → r.submitted_hash ≡ some h
      → chain_by_id r.chain_id ≡ ok urls
      → IsOpen rounds
      → confirm k false now rounds m ≡ none
  unfolding confirm
  confirm-forever r h urls found s e c o = ground (arith, open_poll k h now rounds m o)
