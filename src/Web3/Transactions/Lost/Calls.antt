-- ===== src/Web3/Transactions/Lost/Calls.antt =====
-- No sequence of calls on the transaction manager moves on a row whose broadcast failed.
use astra_ai_agent.Prelude.{
  ◌≡◌, inl, inr, refl, ap, ◌∙◌, Bool, Bool-cases, true, false, ◌&&◌, Option, none, some, List, [],
  ◌∷◌, String, str_eq, eq_iff, arith, Option-cases, if◌then◌else◌,
}
use astra_ai_agent.Web3.Policy
use astra_ai_agent.Web3.Policy.{PolicyConfig}
use astra_ai_agent.Web3.Transactions.State.{
  confirmed, failed, Status, Stamp, Tx, Manager, Error, Result, ok, err, find,
}
use astra_ai_agent.Web3.Transactions.Network.{
  Receipt, succeeded, reverted, unclear, Rpc, Vault, chain_by_id,
}
use astra_ai_agent.Web3.Transactions.Lifecycle.{Reply}
use astra_ai_agent.Web3.Transactions.Recovery
use astra_ai_agent.Web3.Transactions.Recovery.{
  sign_and_broadcast_checked, note_error, recover_all, in_flight, cancel_row, mark_status, poll,
  confirm_row, is_settled,
}
use astra_ai_agent.Web3.Transactions.Table.{on_row, find-update, find-map}
use astra_ai_agent.Web3.Transactions.Moves.{authorize_moves, reject_moves}
use astra_ai_agent.Web3.Transactions.Sends.{Result-cases}
use astra_ai_agent.Web3.Transactions.Traces.{
  Call, create, authorize, reject, sign_and_broadcast, recover, confirm, emergency_stop,
  emergency_resume, set_mode, with_config, after_confirm, run_call, run,
}
use astra_ai_agent.Web3.Transactions.Lost.{
  IsLost, StaysLost, quiet-StaysLost, Moved-StaysLost, create-StaysLost, sign-StaysLost,
  checked-StaysLost,
}

IsLost-is_settled : (r : Tx) → IsLost (some r) → is_settled r.status ≡ false
IsLost-is_settled r h = ground (arith, h)

IsLost-cancel_row : (now : Stamp) (o : Option Tx) → IsLost o → IsLost (on_row (cancel_row now) o)
IsLost-cancel_row now none h = h
IsLost-cancel_row now (some r) h = ground (arith, h)

-- A new error text leaves a lost row lost.
IsLost-noted :
    (error : String) (now : Stamp) (b : Bool) (o : Option Tx)
    → IsLost o
    → IsLost (if b then on_row (λ r. record r { error = error; updated_at = now }) o else o)
IsLost-noted error now b none h = absurd h
IsLost-noted error now true (some r) h = h
IsLost-noted error now false (some r) h = h

StaysLost-after :
    (k : String) (m m' m'' : Manager) → StaysLost k m m' → StaysLost k m' m'' → StaysLost k m m''
StaysLost-after k m m' m'' (l, e) (l', e') = (l', e' ∙ e)

note-StaysLost :
    (k j : String) (now : Stamp) (text : Error → String) (out : Result Reply × Manager)
    (m : Manager)
    → StaysLost k m out.1
    → StaysLost k m (note_error j now text out)
note-StaysLost k j now text (ok a, m') m h = h
note-StaysLost k j now text (err e, m') m (lost, sent) = (
  rw (find-update j k (λ r. record r { error = text e; updated_at = now }) (λ r. refl) m'.rows)
      (IsLost-noted (text e) now (str_eq j k) (find k m'.rows) lost),
  sent,
)

recover-StaysLost :
    (k : String) (rpc : String → Rpc) (vault : Option Vault) (text : Error → String) (now : Stamp)
    (js : List String) (m : Manager)
    → IsLost (find k m.rows)
    → StaysLost k m (recover_all rpc vault text now js m)
unfolding recover_all
recover-StaysLost k rpc vault text now [] m h = (h, refl)
recover-StaysLost k rpc vault text now (j ∷ js) m h =
    let next = note_error j now text (sign_and_broadcast_checked (rpc j) vault j now m) in
    let first : StaysLost k m next =
      note-StaysLost k j now text (sign_and_broadcast_checked (rpc j) vault j now m) m
        (checked-StaysLost k m h (rpc j) vault now j) in
    StaysLost-after k m next (recover_all rpc vault text now js next) first
      (recover-StaysLost k rpc vault text now js next first.0)

module _ (k : String) (m : Manager) (lost : IsLost (find k m.rows)) where
  mark-StaysLost :
      (j : String) (s : Status) (e : String) (now : Stamp)
      → str_eq j k ≡ false
      → StaysLost k m (mark_status j s e now m)
  mark-StaysLost j s e now other =
      quiet-StaysLost k m lost (mark_status j s e now m) j
        (λ r. record r { status = s; error = e; updated_at = now }) (λ r. refl) other refl refl

  retry-StaysLost :
      (b : Bool) (r : Result Reply) (o : Option (Result Reply × Manager))
      → StaysLost k m (after_confirm m o)
      → StaysLost k m (after_confirm m (if b then some (r, m) else o))
  retry-StaysLost true r o h = (lost, refl)
  retry-StaysLost false r o h = h

  poll-StaysLost :
      (j h : String) (timed : Bool) (now : Stamp) (rounds : List (Option Receipt × Bool))
      → str_eq j k ≡ false
      → StaysLost k m (after_confirm m (poll j h timed now rounds m))
  unfolding poll
  poll-StaysLost j h timed now [] other = (lost, refl)
  poll-StaysLost j h timed now ((some succeeded, late) ∷ rounds) other =
      mark-StaysLost j confirmed "" now other
  poll-StaysLost j h timed now ((some reverted, late) ∷ rounds) other =
      mark-StaysLost j failed "tx reverted on-chain" now other
  poll-StaysLost j h timed now ((some unclear, late) ∷ rounds) other =
      retry-StaysLost (timed && late) _ _ (poll-StaysLost j h timed now rounds other)
  poll-StaysLost j h timed now ((none, late) ∷ rounds) other =
      retry-StaysLost (timed && late) _ _ (poll-StaysLost j h timed now rounds other)

  -- The row itself has no hash to poll for.
  confirm_row_self :
      (timed : Bool) (now : Stamp) (rounds : List (Option Receipt × Bool)) (o : Option Tx)
      (j : String)
      → IsLost o
      → after_confirm m (confirm_row j timed now rounds o m) ≡ m
  confirm_row_self timed now rounds none j h = absurd h
  confirm_row_self timed now rounds (some r) j h = rw (IsLost-is_settled r h, h.1) refl

  confirm_row_other :
      (timed : Bool) (now : Stamp) (rounds : List (Option Receipt × Bool)) (o : Option Tx)
      (j : String)
      → str_eq j k ≡ false
      → StaysLost k m (after_confirm m (confirm_row j timed now rounds o m))
  confirm_row_other timed now rounds none j other = (lost, refl)
  confirm_row_other timed now rounds (some r) j other = elim (Bool-cases (is_settled r.status)) [
    | inl s ↦ rw s (lost, refl)
    | inr s ↦ elim (Option-cases r.submitted_hash) [
      | inl e ↦ rw (s, e) (lost, refl)
      | inr (hash, e) ↦ elim (Result-cases (chain_by_id r.chain_id)) [
        | inl (x, c) ↦ rw (s, e, c) (lost, refl)
        | inr (urls, c) ↦ rw (s, e, c) (poll-StaysLost j hash timed now rounds other)
      ]
    ]
  ]

  confirm-StaysLost :
      (j : String) (timed : Bool) (now : Stamp) (rounds : List (Option Receipt × Bool))
      → StaysLost k m (after_confirm m (Recovery.confirm j timed now rounds m))
  unfolding Recovery.confirm
  confirm-StaysLost j timed now rounds = elim (Bool-cases (str_eq j k)) [
    | inr other ↦ confirm_row_other timed now rounds (find j m.rows) j other
    | inl same ↦
        let id : j ≡ k = (eq_iff j k).0 same in
        rw (ap (λ i. find i m.rows) id, confirm_row_self timed now rounds (find k m.rows) j lost)
          (lost, refl)
  ]

  config-StaysLost : (o : Option PolicyConfig) → StaysLost k m (with_config o m)
  config-StaysLost none = (lost, refl)
  config-StaysLost (some cfg) = (lost, refl)

  run_call-StaysLost : (c : Call) → StaysLost k m (run_call c m)
  unfolding run_call
  run_call-StaysLost (create req j now) = create-StaysLost k m lost req j now
  run_call-StaysLost (authorize j now) =
      Moved-StaysLost k m lost j _ (run_call (authorize j now) m) (λ r. refl)
        (authorize_moves j now m)
  run_call-StaysLost (reject j reason now) =
      Moved-StaysLost k m lost j _ (run_call (reject j reason now) m) (λ r. refl)
        (reject_moves j now m reason)
  run_call-StaysLost (sign_and_broadcast rpc vault j now) = sign-StaysLost k m lost rpc vault now j
  run_call-StaysLost (recover rpc vault text now) =
      unfold Recovery.recover in recover-StaysLost k rpc vault text now (in_flight m.rows) m lost
  run_call-StaysLost (confirm j timed now rounds) = confirm-StaysLost j timed now rounds
  run_call-StaysLost (emergency_stop now) =
      unfold Recovery.emergency_stop in
      (
        rw (find-map (cancel_row now) (λ r. ground arith) k m.rows)
            (IsLost-cancel_row now (find k m.rows) lost),
        refl,
      )
  run_call-StaysLost emergency_resume = unfold Recovery.emergency_resume in (lost, refl)
  run_call-StaysLost (set_mode mode) = config-StaysLost (Policy.set_mode m.cfg mode)

-- A row that is signed, or cancelled, and has no hash of a broadcast, as an attempt to send leaves it
-- when every endpoint refuses: whatever methods are called on the manager, for this or other
-- transactions, in whatever order, with whatever answers of the network, `recover` and `confirm`
-- included, it stays so, and nothing more is handed to the network for it.
pub run-StaysLost :
    (k : String) (calls : List Call) (m : Manager)
    → IsLost (find k m.rows)
    → StaysLost k m (run calls m)
unfolding run
run-StaysLost k [] m h = (h, refl)
run-StaysLost k (c ∷ cs) m h =
    let first = run_call-StaysLost k m h c in
    StaysLost-after k m (run_call c m) (run cs (run_call c m)) first
      (run-StaysLost k cs (run_call c m) first.0)
