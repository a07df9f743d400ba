-- ===== src/Web3/Transactions/Lost.antt =====
-- A row whose broadcast failed: no method moves it any further.
pub mod Calls
use mathlib.Core.Path.{subst}
use native.Mathlib.Nat.{add-zero}
use mathlib.Core.List.{append-nil}
use astra_ai_agent.Prelude.{
  ℕ, ◌+◌, ◌≡◌, ◌≢◌, ◌⊎◌, inl, inr, refl, sym, ap, ◌∙◌, Bool, Bool-cases, true, false, ◌||◌, ◌&&◌,
  Option, none, some, List, [], ◌∷◌, ◌++◌, String, str_eq, eq_iff, arith, Option-cases,
  if◌then◌else◌,
}
use astra_ai_agent.Web3.RawTx.{Bytes}
use astra_ai_agent.Web3.Policy.{TxRequest}
use astra_ai_agent.Web3.Transactions.State.{
  Status, signed, cancelled, confirmed, failed, Stamp, Tx, Manager, Error, Result, ok, err, find,
  update,
}
use astra_ai_agent.Web3.Transactions.Network.{
  Receipt, succeeded, reverted, unclear, Rpc, Vault, chain_by_id,
}
use astra_ai_agent.Web3.Transactions.Lifecycle
use astra_ai_agent.Web3.Transactions.Lifecycle.{Reply, is_waiting, status}
use astra_ai_agent.Web3.Transactions.Sending
use astra_ai_agent.Web3.Transactions.Sending.{
  is_submitted, is_signable, needs_approval, sealed_hash, on_chain, send_row, send_unless_mined,
  sign_found, sign_and_send,
}
use astra_ai_agent.Web3.Transactions.Recovery
use astra_ai_agent.Web3.Transactions.Recovery.{
  sign_and_broadcast_checked, is_final, note_error, recover_all, in_flight, cancel_row, mark_status,
  poll, confirm_row, is_settled,
}
use astra_ai_agent.Web3.Transactions.Table.{
  KeepsId, on_row, find-update, find-map, find-insert, find-id, count, count-append, count-one,
}
use astra_ai_agent.Web3.Transactions.Moves.{Moved, authorize_moves, reject_moves, create_adds}
use astra_ai_agent.Web3.Transactions.Sends.{Result-cases, sign_and_send_outcome}
use astra_ai_agent.Web3.Transactions.Sound.{active, mined_change}
use astra_ai_agent.Web3.Transactions.Traces.{
  Call, create, authorize, reject, sign_and_broadcast, recover, confirm, emergency_stop,
  emergency_resume, after_confirm, run_call, run,
}

-- Signed, or cancelled by an emergency stop, and without the hash of a broadcast.
abbrev pub IsLost : Option Tx → Type 0
IsLost none = ⊥
IsLost (some r) = ((r.status ≡ signed) ⊎ (r.status ≡ cancelled)) × (r.submitted_hash ≡ none)

-- The row is lost still, and nothing more was handed to the network for it.
abbrev pub StaysLost : String → Manager → Manager → Type 0
StaysLost k m m' = IsLost (find k m'.rows) × (count k m'.sent ≡ count k m.sent)

IsLost-is_waiting : (r : Tx) → IsLost (some r) → is_waiting r.status ≡ false
IsLost-is_waiting r h = ground (arith, h)

IsLost-found : {o : Option Tx} (r : Tx) → o ≡ some r → IsLost o → IsLost (some r)
IsLost-found r e h = subst IsLost e h

module _ (k : String) (m : Manager) (lost : IsLost (find k m.rows)) where
  pub same-StaysLost : (m' : Manager) → m'.rows ≡ m.rows → m'.sent ≡ m.sent → StaysLost k m m'
  same-StaysLost m' rows sent = (rw rows lost, rw sent refl)

  -- A change of the row of another transaction, with what it hands to the network.
  other-StaysLost :
      (m' : Manager) (j : String) (f : Tx → Tx) (extra : List (String × Bytes))
      → KeepsId f
      → str_eq j k ≡ false
      → m'.rows ≡ update j f m.rows
      → m'.sent ≡ m.sent ++ extra
      → count k extra ≡ 0
      → StaysLost k m m'
  other-StaysLost m' j f extra keeps other rows sent none_extra = (
    rw (rows, find-update j k f keeps m.rows, other) lost,
    ap (count k) sent ∙ count-append k m.sent extra ∙ omega (arith, none_extra),
  )

  pub quiet-StaysLost :
      (m' : Manager) (j : String) (f : Tx → Tx)
      → KeepsId f
      → str_eq j k ≡ false
      → m'.rows ≡ update j f m.rows
      → m'.sent ≡ m.sent
      → StaysLost k m m'
  unfolding count
  quiet-StaysLost m' j f keeps other rows sent =
      other-StaysLost m' j f [] keeps other rows (rw (append-nil, sent)) refl

  -- A waiting row that moves on is another one.
  pub Moved-StaysLost :
      (j : String) (f : Tx → Tx) (m' : Manager) → KeepsId f → Moved j f m m' → StaysLost k m m'
  Moved-StaysLost j f m' keeps (inl (rows, sent)) = same-StaysLost m' rows sent
  Moved-StaysLost j f m' keeps (inr (r, e, w, rows, sent)) = elim (Bool-cases (str_eq j k)) [
    | inr other ↦ quiet-StaysLost m' j f keeps other rows sent
    | inl same ↦
        let found : find k m.rows ≡ some r =
          ap (λ i. find i m.rows) (sym ((eq_iff j k).0 same)) ∙ e in
        absurd (ground (arith, w, IsLost-is_waiting r (IsLost-found r found lost)))
  ]

  pub create-StaysLost :
      (req : TxRequest) (j : String) (now : Stamp) → StaysLost k m (Lifecycle.create req j now m).1
  create-StaysLost req j now = elim (create_adds now m req j) [
    | inl (rows, sent) ↦ same-StaysLost (Lifecycle.create req j now m).1 rows sent
    | inr (b, e, rows, sent) ↦ elim (Option-cases (find k m.rows)) [
      | inl x ↦ absurd (subst IsLost x lost)
      | inr (r, x) ↦ (rw (rows, find-insert, x) (IsLost-found r x lost), rw sent refl)
    ]
  ]

  -- The row itself is refused.
  refused :
      (rpc : Rpc) (vault : Option Vault) (now : Stamp) (o : Option Tx)
      → IsLost o
      → ((sign_found rpc vault now o m).1.rows ≡ m.rows)
        × ((sign_found rpc vault now o m).1.sent ≡ m.sent)
  refused rpc vault now none h = absurd h
  refused rpc vault now (some r) h = (ground (arith, h), ground (arith, h))

  module _ (rpc : Rpc) (vault : Option Vault) (now : Stamp) where
    unless_mined-StaysLost :
        (urls : List String) (rec : Tx) (o : Option String)
        → str_eq rec.tx_id k ≡ false
        → StaysLost k m (send_unless_mined rpc vault urls rec now o m).1
    unless_mined-StaysLost urls rec (some h) other =
        quiet-StaysLost (send_unless_mined rpc vault urls rec now (some h) m).1 rec.tx_id
          (mined_change h now) (λ r. refl) other refl refl
    unless_mined-StaysLost urls rec none other =
        elim (sign_and_send_outcome rpc urls rec now m vault) [
          | inl w ↦
              quiet-StaysLost (sign_and_send rpc vault urls rec now m).1 rec.tx_id w.f w.flags.id
                other w.rows w.sent
          | inr w ↦
              other-StaysLost (sign_and_send rpc vault urls rec now m).1 rec.tx_id w.f
                ((rec.tx_id, w.raw) ∷ []) w.flags.id other w.rows w.sent
                (count-one rec.tx_id k w.raw (λ e. cc ((eq_iff rec.tx_id k).1 (sym e), other)))
        ]

    send_row-StaysLost :
        (rec : Tx) → str_eq rec.tx_id k ≡ false → StaysLost k m (send_row rpc vault rec now m).1
    send_row-StaysLost rec other = elim (Bool-cases (is_signable rec.status)) [
      | inr s ↦ same-StaysLost (send_row rpc vault rec now m).1 (ground arith) (ground arith)
      | inl s ↦ elim (Bool-cases (needs_approval rec)) [
        | inl a ↦ same-StaysLost (send_row rpc vault rec now m).1 (ground arith) (ground arith)
        | inr a ↦ elim (Result-cases (chain_by_id rec.chain_id)) [
          | inl (e, c) ↦
              same-StaysLost (send_row rpc vault rec now m).1 (ground arith) (ground arith)
          | inr (urls, c) ↦ elim (Result-cases (sealed_hash vault rec.signed_raw_wrapped)) [
            | inl (e, d) ↦
                same-StaysLost (send_row rpc vault rec now m).1 (ground arith) (ground arith)
            | inr (o, d) ↦
                rw (s, a, c, d) (unless_mined-StaysLost urls rec (on_chain rpc urls o) other)
          ]
        ]
      ]
    ]

    found-StaysLost :
        (j : String) (o : Option Tx)
        → find j m.rows ≡ o
        → str_eq j k ≡ false
        → StaysLost k m (sign_found rpc vault now o m).1
    found-StaysLost j none e other = same-StaysLost m refl refl
    found-StaysLost j (some rec) e other = elim (Bool-cases (is_submitted rec)) [
      | inl b ↦ rw b (unfold status in same-StaysLost m refl refl)
      | inr b ↦ rw b (send_row-StaysLost rec (ap (λ i. str_eq i k) (find-id j m.rows e) ∙ other))
    ]

    pub sign-StaysLost :
        (j : String) → StaysLost k m (Sending.sign_and_broadcast rpc vault j now m).1
    unfolding Sending.sign_and_broadcast
    sign-StaysLost j = elim (Bool-cases (m.stopped || m.paused)) [
      | inl a ↦
          same-StaysLost (Sending.sign_and_broadcast rpc vault j now m).1 (ground arith)
            (ground arith)
      | inr a ↦ rw (active rpc vault now m j a) (elim (Bool-cases (str_eq j k)) [
        | inr other ↦ found-StaysLost j (find j m.rows) refl other
        | inl same ↦
            let here : IsLost (find j m.rows) =
              subst (λ i. IsLost (find i m.rows)) (sym ((eq_iff j k).0 same)) lost in
            let (rows, sent) = refused rpc vault now (find j m.rows) here in
            same-StaysLost (sign_found rpc vault now (find j m.rows) m).1 rows sent
      ])
    ]

    pub checked-StaysLost :
        (j : String) → StaysLost k m (sign_and_broadcast_checked rpc vault j now m).1
    unfolding sign_and_broadcast_checked
    checked-StaysLost j = elim (Option-cases (find j m.rows)) [
      | inl e ↦ rw e (same-StaysLost m refl refl)
      | inr (r, e) ↦ elim (Bool-cases (is_final r.status)) [
        | inl f ↦ rw (e, f) (same-StaysLost m refl refl)
        | inr f ↦ rw (e, f) (sign-StaysLost j)
      ]
    ]
