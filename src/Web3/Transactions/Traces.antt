-- ===== src/Web3/Transactions/Traces.antt =====
-- What holds of a manager after any sequence of calls.
use astra_ai_agent.Prelude.{
  ℕ, ◌≤◌, ◌<◌, ◌≡◌, inl, inr, refl, Bool, true, false, ◌&&◌, Option, none, some, List, [], ◌∷◌,
  String, if◌then◌else◌, arith, Bool-cases, Option-cases,
}
use astra_ai_agent.Prelude.Text.{Text}
use astra_ai_agent.Web3.Policy
use astra_ai_agent.Web3.Policy.{PolicyConfig, TxRequest}
use astra_ai_agent.Web3.Transactions.State.{
  Status, confirmed, failed, Stamp, Tx, Manager, Error, Result, ok, err, find,
}
use astra_ai_agent.Web3.Transactions.Network.{
  Receipt, Rpc, Vault, succeeded, reverted, unclear, chain_by_id,
}
use astra_ai_agent.Web3.Transactions.Lifecycle
use astra_ai_agent.Web3.Transactions.Lifecycle.{Reply}
use astra_ai_agent.Web3.Transactions.Sending
use astra_ai_agent.Web3.Transactions.Recovery
use astra_ai_agent.Web3.Transactions.Recovery.{
  sign_and_broadcast_checked, checked_found, is_final, note_error, recover_all, in_flight, poll,
  confirm_row, mark_status, poll_chain, poll_hash, is_settled,
}
use astra_ai_agent.Web3.Transactions.Table.{count}
use astra_ai_agent.Web3.Transactions.Invariant.{is_unsent, IsFine, IsCleared, IsSound}
use astra_ai_agent.Web3.Transactions.Moves.{
  update-IsSound, create-IsSound, authorize-IsSound, reject-IsSound, emergency_stop-IsSound,
  emergency_resume-IsSound,
}
use astra_ai_agent.Web3.Transactions.Sends.{Result-cases}
use astra_ai_agent.Web3.Transactions.Sound.{sign_and_broadcast-IsSound}

-- A call of one of the methods, with what the environment supplies.
pub data Call : Type 0 where
  create : TxRequest → String → Stamp → Call
  authorize : String → Stamp → Call
  reject : String → String → Stamp → Call
  sign_and_broadcast : Rpc → Option Vault → String → Stamp → Call
  recover : (String → Rpc) → Option Vault → (Error → String) → Stamp → Call
  confirm : String → Bool → Stamp → List (Option Receipt × Bool) → Call
  emergency_stop : Stamp → Call
  emergency_resume : Call
  set_mode : Text → Call

-- The state that a call leaves. A `confirm` that is still polling has changed nothing.
abbrev pub after_confirm : Manager → Option (Result Reply × Manager) → Manager
after_confirm m none = m
after_confirm m (some (_, m')) = m'

-- `set_mode` of the policy, which the operator may call between any two methods. A mode that it
-- refuses changes nothing.
abbrev pub with_config : Option PolicyConfig → Manager → Manager
with_config none m = m
with_config (some cfg) m = record m { cfg = cfg }

unfoldable pub run_call : Call → Manager → Manager
run_call (create req k now) m = (Lifecycle.create req k now m).1
run_call (authorize k now) m = (Lifecycle.authorize k now m).1
run_call (reject k reason now) m = (Lifecycle.reject k reason now m).1
run_call (sign_and_broadcast rpc vault k now) m = (Sending.sign_and_broadcast rpc vault k now m).1
run_call (recover rpc vault text now) m = Recovery.recover rpc vault text now m
run_call (confirm k timed now rounds) m = after_confirm m (Recovery.confirm k timed now rounds m)
run_call (emergency_stop now) m = Recovery.emergency_stop now m
run_call emergency_resume m = Recovery.emergency_resume m
run_call (set_mode mode) m = with_config (Policy.set_mode m.cfg mode) m

unfoldable pub run : List Call → Manager → Manager
run [] m = m
run (c ∷ cs) m = run cs (run_call c m)

-- The state of a manager over an empty table.
abbrev pub initial : PolicyConfig → Manager
initial cfg = record {
  rows = [];
  cfg = cfg;
  stopped = false;
  paused = false;
  events = [];
  sent = [];
}

-- Only the status and the error of a row change, and not to AUTHORIZED or an unsent status.
module _ (k : String) (s : Status) (e : String) (now : Stamp) (m : Manager) where
  mark-IsSound : is_unsent s ≡ false → IsSound m → IsSound (mark_status k s e now m)
  mark-IsSound u h =
      update-IsSound k (λ r. record r { status = s; error = e; updated_at = now }) m
        (mark_status k s e now m) (λ r. refl) refl refl (λ r found fine. ground arith) h

retry-IsSound :
    (m : Manager) (b : Bool) (r : Result Reply) (o : Option (Result Reply × Manager))
    → IsSound m
    → IsSound (after_confirm m o)
    → IsSound (after_confirm m (if b then some (r, m) else o))
retry-IsSound m true r o h ho = h
retry-IsSound m false r o h ho = ho

module _ (k h : String) (timed : Bool) (now : Stamp) (m : Manager) (sound : IsSound m) where
  poll-IsSound :
      (rounds : List (Option Receipt × Bool))
      → IsSound (after_confirm m (poll k h timed now rounds m))
  unfolding poll
  poll-IsSound [] = sound
  poll-IsSound ((some succeeded, late) ∷ rounds) = mark-IsSound k confirmed "" now m refl sound
  poll-IsSound ((some reverted, late) ∷ rounds) = mark-IsSound k failed _ now m refl sound
  poll-IsSound ((some unclear, late) ∷ rounds) =
      retry-IsSound m (timed && late) _ _ sound (poll-IsSound rounds)
  poll-IsSound ((none, late) ∷ rounds) =
      retry-IsSound m (timed && late) _ _ sound (poll-IsSound rounds)

module _ (k : String) (timed : Bool) (now : Stamp) (rounds : List (Option Receipt × Bool)) where
  confirm_row-IsSound :
      (m : Manager) (o : Option Tx)
      → IsSound m
      → IsSound (after_confirm m (confirm_row k timed now rounds o m))
  confirm_row-IsSound m none h = h
  confirm_row-IsSound m (some r) h = elim (Bool-cases (is_settled r.status)) [
    | inl s ↦ rw s h
    | inr s ↦ elim (Option-cases r.submitted_hash) [
      | inl e ↦ rw (s, e) h
      | inr (hash, e) ↦ elim (Result-cases (chain_by_id r.chain_id)) [
        | inl (x, c) ↦ rw (s, e, c) h
        | inr (urls, c) ↦ rw (s, e, c) (poll-IsSound k hash timed now m h rounds)
      ]
    ]
  ]

module _ (rpc : String → Rpc) (vault : Option Vault) (text : Error → String) (now : Stamp) where
  checked-IsSound :
      (k : String) (m : Manager)
      → IsSound m
      → IsSound (sign_and_broadcast_checked (rpc k) vault k now m).1
  unfolding sign_and_broadcast_checked
  checked-IsSound k m h = elim (Option-cases (find k m.rows)) [
    | inl e ↦ rw e h
    | inr (r, e) ↦ elim (Bool-cases (is_final r.status)) [
      | inl f ↦ rw (e, f) h
      | inr f ↦ rw (e, f) (sign_and_broadcast-IsSound (rpc k) vault now m k h)
    ]
  ]

  note-IsSound :
      (k : String) (out : Result Reply × Manager)
      → IsSound out.1
      → IsSound (note_error k now text out)
  note-IsSound k (ok a, m) h = h
  note-IsSound k (err e, m) h =
      update-IsSound k (λ r. record r { error = text e; updated_at = now }) m
        (note_error k now text (err e, m)) (λ r. refl) refl refl (λ r found fine. fine) h

  recover_all-IsSound :
      (ks : List String) (m : Manager) → IsSound m → IsSound (recover_all rpc vault text now ks m)
  unfolding recover_all
  recover_all-IsSound [] m h = h
  recover_all-IsSound (k ∷ ks) m h =
      recover_all-IsSound ks _
        (note-IsSound k (sign_and_broadcast_checked (rpc k) vault k now m) (checked-IsSound k m h))

config-IsSound : (o : Option PolicyConfig) (m : Manager) → IsSound m → IsSound (with_config o m)
config-IsSound none m h = h
config-IsSound (some cfg) m h = record { at = h.at }

run_call-IsSound : (c : Call) (m : Manager) → IsSound m → IsSound (run_call c m)
unfolding run_call
run_call-IsSound (create req k now) m h = create-IsSound now m req k h
run_call-IsSound (authorize k now) m h = authorize-IsSound k now m h
run_call-IsSound (reject k reason now) m h = reject-IsSound k now m reason h
run_call-IsSound (sign_and_broadcast rpc vault k now) m h =
    sign_and_broadcast-IsSound rpc vault now m k h
run_call-IsSound (recover rpc vault text now) m h =
    unfold Recovery.recover in recover_all-IsSound rpc vault text now (in_flight m.rows) m h
run_call-IsSound (confirm k timed now rounds) m h =
    unfold Recovery.confirm in confirm_row-IsSound k timed now rounds m (find k m.rows) h
run_call-IsSound (emergency_stop now) m h = emergency_stop-IsSound now m h
run_call-IsSound emergency_resume m h =
    emergency_resume-IsSound (record { day = ""; clock = "" }) m h
run_call-IsSound (set_mode mode) m h = config-IsSound (Policy.set_mode m.cfg mode) m h

run-IsSound : (cs : List Call) (m : Manager) → IsSound m → IsSound (run cs m)
unfolding run
run-IsSound [] m h = h
run-IsSound (c ∷ cs) m h = run-IsSound cs (run_call c m) (run_call-IsSound c m h)

initial-IsSound : (cfg : PolicyConfig) → IsSound (initial cfg)
unfolding find count
initial-IsSound cfg = record { at = λ k. refl }

fine_once : (o : Option Tx) (n : ℕ) → IsFine o n → n ≤ 1
fine_once none n h = omega arith
fine_once (some r) n h = h.0

fine-IsCleared :
    (o : Option Tx) (n : ℕ) → IsFine o n → 0 < n → (r : Tx) × (o ≡ some r) × IsCleared r
fine-IsCleared none n h p = absurd (omega arith)
fine-IsCleared (some r) n h p = (r, refl, h.3 p)

-- Whatever calls are made on a manager with an empty table, changes of the policy's mode included,
-- in whatever order, with whatever answers of the network: of each transaction at most one raw
-- transaction is handed to the network.
pub sent_at_most_once :
    (cfg : PolicyConfig) (calls : List Call) (k : String)
    → count k (run calls (initial cfg)).sent ≤ 1
sent_at_most_once cfg calls k =
    fine_once (find k (run calls (initial cfg)).rows) _
      ((run-IsSound calls (initial cfg) (initial-IsSound cfg)).at k)

-- After such calls, a transaction that was handed to the network is in the table, and either it
-- needed no approval when it was prepared or it bears the mark that `authorize` leaves.
pub sent_only-IsCleared :
    (cfg : PolicyConfig) (calls : List Call) (k : String)
    → 0 < count k (run calls (initial cfg)).sent
    → (r : Tx) × (find k (run calls (initial cfg)).rows ≡ some r) × IsCleared r
sent_only-IsCleared cfg calls k sent =
    fine-IsCleared (find k (run calls (initial cfg)).rows) _
      ((run-IsSound calls (initial cfg) (initial-IsSound cfg)).at k) sent
