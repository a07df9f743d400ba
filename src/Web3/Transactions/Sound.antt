-- ===== src/Web3/Transactions/Sound.antt =====
-- `sign_and_broadcast` keeps the invariant.
use mathlib.Core.Path.{subst}
use astra_ai_agent.Prelude.{
  ℕ, ◌+◌, ◌≡◌, ◌⊎◌, inl, inr, refl, sym, true, false, ◌||◌, Option, none, some, List, [], ◌∷◌,
  String, arith, Bool-cases,
}
use astra_ai_agent.Web3.Transactions.State.{
  authorized, confirmed, signed, broadcast, Stamp, Tx, Manager, find,
}
use astra_ai_agent.Web3.Transactions.Network.{Rpc, Vault, chain_by_id}
use astra_ai_agent.Web3.Transactions.Sending.{
  sign_and_send, sign_and_broadcast, is_submitted, is_signable, needs_approval, sealed_hash,
  on_chain, send_row, send_unless_mined, sign_found,
}
use astra_ai_agent.Web3.Transactions.Lifecycle.{status}
use astra_ai_agent.Web3.Transactions.Table.{find-id, count, count-one, count-one_self}
use astra_ai_agent.Web3.Transactions.Invariant.{IsFine, IsCleared, IsSound, change-IsSound}
use astra_ai_agent.Web3.Transactions.Moves.{update-IsSound, same-IsSound}
use astra_ai_agent.Web3.Transactions.Sends.{Result-cases, Authorizes, Sends, sign_and_send_outcome}

-- A row that passed the guards was not sent yet, and is cleared.
passed_IsCleared :
    (r : Tx) (n : ℕ)
    → is_signable r.status ≡ true
    → needs_approval r ≡ false
    → IsFine (some r) n
    → (n ≡ 0) × IsCleared r
passed_IsCleared r n s a h = ground arith

authorized-IsFine :
    (r q : Tx) (n : ℕ)
    → (n ≡ 0) × IsCleared r
    → q.status ≡ authorized
    → q.requires_approval ≡ r.requires_approval
    → q.authorized_by ≡ r.authorized_by
    → IsFine (some q) n
authorized-IsFine r q n h st re by = ground arith

sent-IsFine :
    (r q : Tx) (n : ℕ)
    → (n ≡ 0) × IsCleared r
    → (q.status ≡ signed) ⊎ (q.status ≡ broadcast)
    → q.requires_approval ≡ r.requires_approval
    → q.authorized_by ≡ r.authorized_by
    → IsFine (some q) (n + 1)
sent-IsFine r q n h st re by = ground arith

mined-IsFine :
    (r q : Tx) (n : ℕ)
    → IsFine (some r) n
    → q.status ≡ confirmed
    → q.requires_approval ≡ r.requires_approval
    → q.authorized_by ≡ r.authorized_by
    → IsFine (some q) n
mined-IsFine r q n h st re by = ground arith

module _ (k : String) (m m' : Manager) (rec : Tx) (found : find k m.rows ≡ some rec) where
  module _ (s : is_signable rec.status ≡ true) (a : needs_approval rec ≡ false) where
    -- What is known of the row that is changed.
    passed : (r : Tx) (n : ℕ) → find k m.rows ≡ some r → IsFine (some r) n → (n ≡ 0) × IsCleared r
    passed r n e fine =
        let same : rec ≡ r = cc in passed_IsCleared r n (rw same at s) (rw same at a) fine

    authorizes-IsSound : Authorizes k m m' → IsSound m → IsSound m'
    authorizes-IsSound w h =
        update-IsSound k w.f m m' w.flags.id w.rows w.sent
          (λ r e fine.
            authorized-IsFine r (w.f r) (count k m.sent) (passed r (count k m.sent) e fine)
              (w.status r) (w.flags.requires r) (w.flags.by r))
          h

    sends-IsSound : Sends k m m' → IsSound m → IsSound m'
    sends-IsSound w h =
        change-IsSound k w.f ((k, w.raw) ∷ []) m m' w.flags.id w.rows w.sent
          (λ j ne. count-one k j w.raw ne)
          (λ r e fine. rw (count-one_self k w.raw) (
            sent-IsFine r (w.f r) (count k m.sent) (passed r (count k m.sent) e fine) (w.status r)
              (w.flags.requires r) (w.flags.by r)))
          (λ e. cc) h

abbrev pub mined_change : String → Stamp → Tx → Tx
mined_change h now r = record r {
  status = confirmed;
  submitted_hash = some h;
  error = "recovered: already on chain";
  updated_at = now;
}

module _ (rpc : Rpc) (vault : Option Vault) (rec : Tx) (now : Stamp) (m : Manager)
    (sound : IsSound m) (found : find rec.tx_id m.rows ≡ some rec) where
  -- The row that was found, with its bytes on chain already.
  mined_row :
      (urls : List String) (h : String)
      → IsSound (send_unless_mined rpc vault urls rec now (some h) m).1
  mined_row urls h =
      update-IsSound rec.tx_id (mined_change h now) m
        (send_unless_mined rpc vault urls rec now (some h) m).1 (λ r. refl) refl refl
        (λ r e fine.
          mined-IsFine r (mined_change h now r) (count rec.tx_id m.sent) fine refl refl refl)
        sound

  sent_row :
      (urls : List String)
      → is_signable rec.status ≡ true
      → needs_approval rec ≡ false
      → IsSound (sign_and_send rpc vault urls rec now m).1
  sent_row urls s a = elim (sign_and_send_outcome rpc urls rec now m vault) [
    | inl w ↦ authorizes-IsSound rec.tx_id m _ rec found s a w sound
    | inr w ↦ sends-IsSound rec.tx_id m _ rec found s a w sound
  ]

  unless_mined-IsSound :
      (urls : List String) (o : Option String)
      → is_signable rec.status ≡ true
      → needs_approval rec ≡ false
      → IsSound (send_unless_mined rpc vault urls rec now o m).1
  unless_mined-IsSound urls none s a = sent_row urls s a
  unless_mined-IsSound urls (some h) s a = mined_row urls h

  send_row-IsSound : IsSound (send_row rpc vault rec now m).1
  send_row-IsSound = elim (Bool-cases (is_signable rec.status)) [
    | inr s ↦ same-IsSound m _ (ground arith) (ground arith) sound
    | inl s ↦ elim (Bool-cases (needs_approval rec)) [
      | inl a ↦ same-IsSound m _ (ground arith) (ground arith) sound
      | inr a ↦ elim (Result-cases (chain_by_id rec.chain_id)) [
        | inl (e, c) ↦ same-IsSound m _ (ground arith) (ground arith) sound
        | inr (urls, c) ↦ elim (Result-cases (sealed_hash vault rec.signed_raw_wrapped)) [
          | inl (e, d) ↦ same-IsSound m _ (ground arith) (ground arith) sound
          | inr (o, d) ↦ rw (s, a, c, d) (unless_mined-IsSound urls (on_chain rpc urls o) s a)
        ]
      ]
    ]
  ]

module _ (rpc : Rpc) (vault : Option Vault) (now : Stamp) (m : Manager) where
  found-IsSound :
      (k : String) (o : Option Tx)
      → find k m.rows ≡ o
      → IsSound m
      → IsSound (sign_found rpc vault now o m).1
  found-IsSound k none e h = h
  found-IsSound k (some rec) e h = elim (Bool-cases (is_submitted rec)) [
    | inl b ↦ rw b (unfold status in h)
    | inr b ↦ rw b (
        send_row-IsSound rpc vault rec now m h
          (subst (λ (j : String). find j m.rows ≡ some rec) (sym (find-id k m.rows e)) e))
  ]

  pub active :
      (k : String)
      → (m.stopped || m.paused) ≡ false
      → sign_and_broadcast rpc vault k now m ≡ sign_found rpc vault now (find k m.rows) m
  unfolding sign_and_broadcast
  active k a = ground arith

  pub sign_and_broadcast-IsSound :
      (k : String) → IsSound m → IsSound (sign_and_broadcast rpc vault k now m).1
  unfolding sign_and_broadcast
  sign_and_broadcast-IsSound k h = elim (Bool-cases (m.stopped || m.paused)) [
    | inl a ↦ same-IsSound m _ (ground arith) (ground arith) h
    | inr a ↦ rw (active k a) (found-IsSound k (find k m.rows) refl h)
  ]
