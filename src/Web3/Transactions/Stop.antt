-- ===== src/Web3/Transactions/Stop.antt =====
-- The emergency stop.
use astra_ai_agent.Prelude.{
  ◌≡◌, inl, inr, refl, Bool, true, Option, none, some, List, [], ◌∷◌, String, arith, Option-cases,
  ◌∙◌,
}
use astra_ai_agent.Web3.Policy
use astra_ai_agent.Web3.Policy.{PolicyConfig, TxRequest}
use astra_ai_agent.Web3.Transactions.State.{
  Stamp, Manager, Error, policy_error, Result, ok, err, find,
}
use astra_ai_agent.Web3.Transactions.Network.{Receipt, Rpc, Vault}
use astra_ai_agent.Web3.Transactions.Lifecycle
use astra_ai_agent.Web3.Transactions.Lifecycle.{Reply}
use astra_ai_agent.Web3.Transactions.Sending
use astra_ai_agent.Web3.Transactions.Sending.{sign_and_send}
use astra_ai_agent.Web3.Transactions.Recovery
use astra_ai_agent.Web3.Transactions.Recovery.{
  cancel_row, recover_all, note_error, sign_and_broadcast_checked, is_final, poll, confirm_row,
  is_settled, in_flight,
}
use astra_ai_agent.Web3.Transactions.Traces.{
  Call, create, authorize, reject, sign_and_broadcast, recover, confirm, emergency_stop,
  emergency_resume, set_mode, with_config, after_confirm, run_call, run,
}

-- No call lifts the stop.
abbrev pub NoResume : List Call → Type 0
NoResume [] = Unit
NoResume (emergency_resume ∷ cs) = ⊥
NoResume (create _ _ _ ∷ cs) = NoResume cs
NoResume (authorize _ _ ∷ cs) = NoResume cs
NoResume (reject _ _ _ ∷ cs) = NoResume cs
NoResume (sign_and_broadcast _ _ _ _ ∷ cs) = NoResume cs
NoResume (recover _ _ _ _ ∷ cs) = NoResume cs
NoResume (confirm _ _ _ _ ∷ cs) = NoResume cs
NoResume (emergency_stop _ ∷ cs) = NoResume cs
NoResume (set_mode _ ∷ cs) = NoResume cs

-- Still stopped, and nothing more was handed to the network.
abbrev Quiet : Manager → Manager → Type 0
Quiet m m' = (m'.stopped ≡ true) × (m'.sent ≡ m.sent)

module _ (m : Manager) (stopped : m.stopped ≡ true) where
  Quiet-create :
      (req : TxRequest) (k : String) (now : Stamp) → Quiet m (Lifecycle.create req k now m).1
  unfolding Lifecycle.create
  Quiet-create req k now = ground arith

  Quiet-authorize : (k : String) (now : Stamp) → Quiet m (Lifecycle.authorize k now m).1
  unfolding Lifecycle.authorize
  Quiet-authorize k now = ground arith

  Quiet-reject : (k reason : String) (now : Stamp) → Quiet m (Lifecycle.reject k reason now m).1
  unfolding Lifecycle.reject
  Quiet-reject k reason now = ground arith

  sign_refused :
      (rpc : Rpc) (vault : Option Vault) (k : String) (now : Stamp)
      → Sending.sign_and_broadcast rpc vault k now m ≡ (err policy_error, m)
  unfolding Sending.sign_and_broadcast
  sign_refused rpc vault k now = ground arith

  Quiet-checked :
      (rpc : Rpc) (vault : Option Vault) (k : String) (now : Stamp)
      → Quiet m (sign_and_broadcast_checked rpc vault k now m).1
  unfolding sign_and_broadcast_checked
  Quiet-checked rpc vault k now = ground (arith, sign_refused rpc vault k now)

  Quiet-poll :
      (k h : String) (timed : Bool) (now : Stamp) (rounds : List (Option Receipt × Bool))
      → Quiet m (after_confirm m (poll k h timed now rounds m))
  unfolding poll
  Quiet-poll k h timed now [] = (stopped, refl)
  Quiet-poll k h timed now ((o, late) ∷ rounds) = ground (arith, Quiet-poll k h timed now rounds)

  Quiet-confirm :
      (k : String) (timed : Bool) (now : Stamp) (rounds : List (Option Receipt × Bool))
      → Quiet m (after_confirm m (Recovery.confirm k timed now rounds m))
  unfolding Recovery.confirm
  Quiet-confirm k timed now rounds = elim (Option-cases (find k m.rows)) [
    | inl e ↦ ground arith
    | inr (r, e) ↦ elim (Option-cases r.submitted_hash) [
      | inl x ↦ ground arith
      | inr (h, x) ↦ ground (arith, Quiet-poll k h timed now rounds)
    ]
  ]

Quiet-note :
    (k : String) (now : Stamp) (text : Error → String) (out : Result Reply × Manager) (m : Manager)
    → Quiet m out.1
    → Quiet m (note_error k now text out)
Quiet-note k now text (ok a, m') m h = h
Quiet-note k now text (err e, m') m h = h

Quiet-recover :
    (rpc : String → Rpc) (vault : Option Vault) (text : Error → String) (now : Stamp)
    (ks : List String) (m : Manager)
    → m.stopped ≡ true
    → Quiet m (recover_all rpc vault text now ks m)
unfolding recover_all
Quiet-recover rpc vault text now [] m h = (h, refl)
Quiet-recover rpc vault text now (k ∷ ks) m h =
    let next = note_error k now text (sign_and_broadcast_checked (rpc k) vault k now m) in
    let (s, e) = Quiet-note k now text _ m (Quiet-checked m h (rpc k) vault k now) in
    let (s', e') = Quiet-recover rpc vault text now ks next s in (s', e' ∙ e)

Quiet-config :
    (o : Option PolicyConfig) (m : Manager) → m.stopped ≡ true → Quiet m (with_config o m)
Quiet-config none m h = (h, refl)
Quiet-config (some cfg) m h = (h, refl)

Quiet-call :
    (c : Call) (cs : List Call)
    → NoResume (c ∷ cs)
    → (m : Manager) → m.stopped ≡ true
    → Quiet m (run_call c m)
unfolding run_call
Quiet-call (create req k now) cs n m h = Quiet-create m h req k now
Quiet-call (authorize k now) cs n m h = Quiet-authorize m h k now
Quiet-call (reject k reason now) cs n m h = Quiet-reject m h k reason now
Quiet-call (sign_and_broadcast rpc vault k now) cs n m h =
    ground (arith, sign_refused m h rpc vault k now)
Quiet-call (recover rpc vault text now) cs n m h =
    unfold Recovery.recover in Quiet-recover rpc vault text now (in_flight m.rows) m h
Quiet-call (confirm k timed now rounds) cs n m h = Quiet-confirm m h k timed now rounds
Quiet-call (emergency_stop now) cs n m h = unfold Recovery.emergency_stop in (refl, refl)
Quiet-call emergency_resume cs n m h = absurd n
Quiet-call (set_mode mode) cs n m h = Quiet-config (Policy.set_mode m.cfg mode) m h

NoResume-tail : (c : Call) (cs : List Call) → NoResume (c ∷ cs) → NoResume cs
NoResume-tail (create _ _ _) cs n = n
NoResume-tail (authorize _ _) cs n = n
NoResume-tail (reject _ _ _) cs n = n
NoResume-tail (sign_and_broadcast _ _ _ _) cs n = n
NoResume-tail (recover _ _ _ _) cs n = n
NoResume-tail (confirm _ _ _ _) cs n = n
NoResume-tail (emergency_stop _) cs n = n
NoResume-tail emergency_resume cs n = absurd n
NoResume-tail (set_mode _) cs n = n

Quiet-run : (cs : List Call) → NoResume cs → (m : Manager) → m.stopped ≡ true → Quiet m (run cs m)
unfolding run
Quiet-run [] n m h = (h, refl)
Quiet-run (c ∷ cs) n m h =
    let (s, e) = Quiet-call c cs n m h in
    let (s', e') = Quiet-run cs (NoResume-tail c cs n) (run_call c m) s in (s', e' ∙ e)

-- After an emergency stop, and until a call resumes, no method hands anything to the network,
-- whatever is called and whatever the network answers.
pub emergency_stop-quiet :
    (m : Manager) (now : Stamp) (calls : List Call)
    → NoResume calls
    → ((run calls (Recovery.emergency_stop now m)).stopped ≡ true)
      × ((run calls (Recovery.emergency_stop now m)).sent ≡ m.sent)
emergency_stop-quiet m now calls n =
    let (s, e) =
      Quiet-run calls n (Recovery.emergency_stop now m) (unfold Recovery.emergency_stop in refl) in
    (s, e ∙ (unfold Recovery.emergency_stop in refl))
