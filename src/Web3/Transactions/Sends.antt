-- ===== src/Web3/Transactions/Sends.antt =====
-- The sending of a transaction keeps the invariant.
use astra_ai_agent.Prelude.{
  ◌≡◌, ◌⊎◌, inl, inr, refl, ap, ◌∙◌, Option, none, some, List, [], ◌∷◌, ◌++◌, String, arith,
}
use astra_ai_agent.Web3.RawTx.{Bytes}
use astra_ai_agent.Web3.Transactions.State.{
  authorized, signed, broadcast, Stamp, Tx, Manager, Error, Result, ok, err, update,
}
use astra_ai_agent.Web3.Transactions.Network.{Rpc, Vault, Signed, sign_rec, broadcast_raw}
use astra_ai_agent.Web3.Transactions.Sending.{sign_and_send}
use astra_ai_agent.Web3.Transactions.Table.{KeepsId, update-update}

pub Result-cases :
    {A : Type 0} (r : Result A) → ((e : Error) × (r ≡ err e)) ⊎ ((a : A) × (r ≡ ok a))
Result-cases (err e) = inl (e, refl)
Result-cases (ok a) = inr (a, refl)

-- The row keeps what decides whether it may be sent.
pub record KeepsFlags (f : Tx → Tx) : Type 0 where
  pub id : (r : Tx) → (f r).tx_id ≡ r.tx_id
  pub requires : (r : Tx) → (f r).requires_approval ≡ r.requires_approval
  pub by : (r : Tx) → (f r).authorized_by ≡ r.authorized_by

-- The row was authorized and nothing was sent, or it was signed and sent once.
pub record Authorizes (k : String) (m m' : Manager) : Type 0 where
  pub f : Tx → Tx
  pub flags : KeepsFlags f
  pub status : (r : Tx) → (f r).status ≡ authorized
  pub rows : m'.rows ≡ update k f m.rows
  pub sent : m'.sent ≡ m.sent

pub record Sends (k : String) (m m' : Manager) : Type 0 where
  pub f : Tx → Tx
  pub raw : Bytes
  pub flags : KeepsFlags f
  pub status : (r : Tx) → ((f r).status ≡ signed) ⊎ ((f r).status ≡ broadcast)
  pub rows : m'.rows ≡ update k f m.rows
  pub sent : m'.sent ≡ m.sent ++ (k, raw) ∷ []

-- The rows after a signature, and after a broadcast.
abbrev pub seal_change : Option Vault → Bytes → Stamp → Tx → Tx
seal_change none raw now r = r
seal_change (some vault) raw now r = record r {
  signed_raw_wrapped = some (vault.seal raw);
  updated_at = now;
}

abbrev pub sign_change : Option Vault → Signed → Stamp → Tx → Tx
sign_change vault sig now r =
    record (seal_change vault sig.raw now
      (record r { status = authorized; error = ""; updated_at = now })) {
        status = signed;
        nonce = some sig.nonce;
        updated_at = now;
      }

abbrev pub send_change : Option Vault → Signed → String → Stamp → Tx → Tx
send_change vault sig hash now r = record (sign_change vault sig now r) {
  status = broadcast;
  submitted_hash = some hash;
  broadcast_at = some now;
  updated_at = now;
}

module _ (k : String) (f g h : Tx → Tx) (kf : KeepsId f) (kg : KeepsId g) (rows : List Tx) where
  update_three : update k h (update k g (update k f rows)) ≡ update k (λ r. h (g (f r))) rows
  update_three = update-update k g h kg (update k f rows) ∙ update-update k f (λ r. h (g r)) kf rows

  update_four :
      (l : Tx → Tx)
      → KeepsId h
      → update k l (update k h (update k g (update k f rows)))
        ≡ update k (λ r. l (h (g (f r)))) rows
  update_four l kh =
      ap (update k l) update_three
      ∙ update-update k (λ r. h (g (f r))) l (λ r. kh (g (f r)) ∙ (kg (f r) ∙ kf r)) rows

module _ (rpc : Rpc) (urls : List String) (rec : Tx) (now : Stamp) (m : Manager) where
  send_refused :
      (vault : Option Vault) (e : Error)
      → sign_rec rpc vault urls rec ≡ err e
      → Authorizes rec.tx_id m (sign_and_send rpc vault urls rec now m).1
  unfolding sign_and_send
  send_refused vault e q = record {
    f = λ r. record r { status = authorized; error = ""; updated_at = now };
    flags = record { id = λ r. refl; requires = λ r. refl; by = λ r. refl };
    status = λ r. refl;
    rows = ground arith;
    sent = ground arith;
  }

  pub rows_signed :
      (vault : Option Vault) (sig : Signed) (e : Error)
      → sign_rec rpc vault urls rec ≡ ok sig
      → broadcast_raw rpc urls sig.raw ≡ err e
      → (sign_and_send rpc vault urls rec now m).1.rows
        ≡ update rec.tx_id (sign_change vault sig now) m.rows
  unfolding sign_and_send
  rows_signed none sig e q b = rw (q, b) (update-update rec.tx_id _ _ (λ r. refl) m.rows)
  rows_signed (some vault) sig e q b =
      rw (q, b) (update_three rec.tx_id _ _ _ (λ r. refl) (λ r. refl) m.rows)

  pub rows_sent :
      (vault : Option Vault) (sig : Signed) (hash : String)
      → sign_rec rpc vault urls rec ≡ ok sig
      → broadcast_raw rpc urls sig.raw ≡ ok hash
      → (sign_and_send rpc vault urls rec now m).1.rows
        ≡ update rec.tx_id (send_change vault sig hash now) m.rows
  unfolding sign_and_send
  rows_sent none sig hash q b =
      rw (q, b) (update_three rec.tx_id _ _ _ (λ r. refl) (λ r. refl) m.rows)
  rows_sent (some vault) sig hash q b =
      rw (q, b) (update_four rec.tx_id _ _ _ (λ r. refl) (λ r. refl) m.rows _ (λ r. refl))

  pub sent_once :
      (vault : Option Vault) (sig : Signed)
      → sign_rec rpc vault urls rec ≡ ok sig
      → (sign_and_send rpc vault urls rec now m).1.sent ≡ m.sent ++ (rec.tx_id, sig.raw) ∷ []
  unfolding sign_and_send
  sent_once none sig q = ground arith
  sent_once (some vault) sig q = ground arith

  flags_signed : (vault : Option Vault) (sig : Signed) → KeepsFlags (sign_change vault sig now)
  flags_signed none sig = record { id = λ r. refl; requires = λ r. refl; by = λ r. refl }
  flags_signed (some vault) sig = record { id = λ r. refl; requires = λ r. refl; by = λ r. refl }

  flags_sent :
      (vault : Option Vault) (sig : Signed) (hash : String)
      → KeepsFlags (send_change vault sig hash now)
  flags_sent none sig hash = record { id = λ r. refl; requires = λ r. refl; by = λ r. refl }
  flags_sent (some vault) sig hash = record { id = λ r. refl; requires = λ r. refl; by = λ r. refl }

  -- Signing fails, or the raw transaction is handed to the network once.
  pub sign_and_send_outcome :
      (vault : Option Vault)
      → Authorizes rec.tx_id m (sign_and_send rpc vault urls rec now m).1
        ⊎ Sends rec.tx_id m (sign_and_send rpc vault urls rec now m).1
  sign_and_send_outcome vault = elim (Result-cases (sign_rec rpc vault urls rec)) [
    | inl (e, q) ↦ inl (send_refused vault e q)
    | inr (sig, q) ↦ elim (Result-cases (broadcast_raw rpc urls sig.raw)) [
      | inl (e, b) ↦ inr record {
        f = sign_change vault sig now;
        raw = sig.raw;
        flags = flags_signed vault sig;
        status = λ r. inl refl;
        rows = rows_signed vault sig e q b;
        sent = sent_once vault sig q;
      }
      | inr (hash, b) ↦ inr record {
        f = send_change vault sig hash now;
        raw = sig.raw;
        flags = flags_sent vault sig hash;
        status = λ r. inr refl;
        rows = rows_sent vault sig hash q b;
        sent = sent_once vault sig q;
      }
    ]
  ]
