-- ===== src/Web3/Transactions/Moves.antt =====
-- Every method but the sending of a transaction keeps the invariant.
use native.Mathlib.Nat.{add-zero}
use mathlib.Core.List.{append-nil}
use astra_ai_agent.Prelude.{
  ℕ, ◌≡◌, ◌⊎◌, inl, inr, refl, Bool, true, false, ◌||◌, Option, none, some, [], ◌∷◌, ◌++◌, String,
  str_eq, if◌then◌else◌, arith, Bool-cases, Option-cases,
}
use astra_ai_agent.Web3.Policy.{TxRequest, Verdict, allow, ask, block, evaluate}
use astra_ai_agent.Web3.Transactions.State.{authorized, rejected, Stamp, Tx, Manager, find, update}
use astra_ai_agent.Web3.Transactions.Lifecycle.{
  create, authorize, reject, is_waiting, prepared_row, spent_today,
}
use astra_ai_agent.Web3.Transactions.Recovery.{emergency_stop, emergency_resume, cancel_row}
use astra_ai_agent.Web3.Transactions.Table.{KeepsId, on_row, find-insert, find-map, count}
use astra_ai_agent.Web3.Transactions.Invariant.{IsFine, IsSound, change-IsSound}

-- A change of one row that hands nothing to the network.
module _ (k : String) (f : Tx → Tx) (m m' : Manager) where
  pub update-IsSound :
      KeepsId f
      → m'.rows ≡ update k f m.rows
      → m'.sent ≡ m.sent
      → ((r : Tx)
          → find k m.rows ≡ some r
          → IsFine (some r) (count k m.sent)
          → IsFine (some (f r)) (count k m.sent))
      → IsSound m
      → IsSound m'
  unfolding count
  update-IsSound keeps rows sent here h =
      change-IsSound k f [] m m' keeps rows (rw (append-nil, sent)) (λ j ne. refl)
        (λ r e fine. rw add-zero (here r e fine)) (λ e. refl) h

-- A change that the invariant does not see.
pub same-IsSound : (m m' : Manager) → m'.rows ≡ m.rows → m'.sent ≡ m.sent → IsSound m → IsSound m'
same-IsSound m m' rows sent h = record { at = λ k. rw (rows, sent) (h.at k) }

-- A method that changes nothing, or that moves on one waiting row by `f`.
abbrev pub Moved : String → (Tx → Tx) → Manager → Manager → Type 0
Moved k f m m' =
    ((m'.rows ≡ m.rows) × (m'.sent ≡ m.sent))
    ⊎ ((r : Tx) × (find k m.rows ≡ some r)
        × (is_waiting r.status ≡ true)
        × (m'.rows ≡ update k f m.rows)
        × (m'.sent ≡ m.sent))

waiting_again :
    {o : Option Tx} (q r : Tx)
    → o ≡ some r
    → o ≡ some q
    → is_waiting r.status ≡ true
    → is_waiting q.status ≡ true
waiting_again q r e e' w = let same : q ≡ r = cc in rw same w

-- A waiting row was not sent, so it may become a rejected one, or one that the policy authorized.
Moved-IsSound :
    (k : String) (f : Tx → Tx) (m m' : Manager)
    → KeepsId f
    → ((r : Tx) → (n : ℕ) → is_waiting r.status ≡ true → IsFine (some r) n → IsFine (some (f r)) n)
    → Moved k f m m'
    → IsSound m
    → IsSound m'
Moved-IsSound k f m m' keeps fine (inl (rows, sent)) h = same-IsSound m m' rows sent h
Moved-IsSound k f m m' keeps fine (inr (r, e, w, rows, sent)) h =
    update-IsSound k f m m' keeps rows sent
      (λ q e' q_fine. fine q (count k m.sent) (waiting_again q r e e' w) q_fine) h

module _ (k : String) (now : Stamp) (m : Manager) where
  pub authorize_moves :
      Moved k
        (λ r. record r { status = authorized; authorized_by = "policy"; updated_at = now })
        m
        (authorize k now m).1
  unfolding authorize
  authorize_moves = elim (Bool-cases (m.stopped || m.paused)) [
    | inl a ↦ inl (ground arith)
    | inr a ↦ elim (Option-cases (find k m.rows)) [
      | inl e ↦ inl (ground arith)
      | inr (r, e) ↦ elim (Bool-cases (is_waiting r.status)) [
        | inl w ↦ inr (r, e, w, ground arith, ground arith)
        | inr w ↦ inl (ground arith)
      ]
    ]
  ]

  pub authorize-IsSound : IsSound m → IsSound (authorize k now m).1
  authorize-IsSound =
      Moved-IsSound k _ m (authorize k now m).1 (λ r. refl) (λ r n w fine. ground arith)
        authorize_moves

  module _ (reason : String) where
    pub reject_moves :
        Moved k
          (λ r. record r { status = rejected; error = reason; updated_at = now })
          m
          (reject k reason now m).1
    unfolding reject
    reject_moves = elim (Option-cases (find k m.rows)) [
      | inl e ↦ inl (ground arith)
      | inr (r, e) ↦ elim (Bool-cases (is_waiting r.status)) [
        | inl w ↦ inr (r, e, w, ground arith, ground arith)
        | inr w ↦ inl (ground arith)
      ]
    ]

    pub reject-IsSound : IsSound m → IsSound (reject k reason now m).1
    reject-IsSound =
        Moved-IsSound k _ m (reject k reason now m).1 (λ r. refl) (λ r n w fine. ground arith)
          reject_moves

cancel-IsFine :
    (now : Stamp) (o : Option Tx) (n : ℕ) → IsFine o n → IsFine (on_row (cancel_row now) o) n
cancel-IsFine now none n h = h
cancel-IsFine now (some r) n h = ground arith

-- What `create` adds: nothing, or one prepared row under a new key.
abbrev pub Created : TxRequest → String → Stamp → Manager → Manager → Type 0
Created req k now m m' =
    ((m'.rows ≡ m.rows) × (m'.sent ≡ m.sent))
    ⊎ ((b : Bool) × (find k m.rows ≡ none)
        × (m'.rows ≡ m.rows ++ prepared_row req k b now ∷ [])
        × (m'.sent ≡ m.sent))

inserted-IsFine :
    (req : TxRequest) (k : String) (b : Bool) (now : Stamp) (j : String) (o : Option Tx) (n : ℕ)
    → IsFine o n
    → IsFine
        (elim o [
          | some q ↦ some q
          | none ↦ if str_eq k j then some (prepared_row req k b now) else none
        ])
        n
inserted-IsFine req k b now j none n fine = ground arith
inserted-IsFine req k b now j (some r) n fine = fine

module _ (now : Stamp) (m : Manager) where
  pub emergency_stop-IsSound : IsSound m → IsSound (emergency_stop now m)
  unfolding emergency_stop
  emergency_stop-IsSound h = record {
    at = λ k.
        rw (find-map (cancel_row now) (λ r. ground arith) k m.rows)
          (cancel-IsFine now (find k m.rows) (count k m.sent) (h.at k));
  }

  pub emergency_resume-IsSound : IsSound m → IsSound (emergency_resume m)
  unfolding emergency_resume
  emergency_resume-IsSound h = record { at = h.at }

  module _ (req : TxRequest) (k : String) where
    pub create_adds : Created req k now m (create req k now m).1
    unfolding create
    create_adds = elim (Bool-cases m.stopped) [
      | inl a ↦ inl (ground arith)
      | inr a ↦ elim (Option-cases (find k m.rows)) [
        | inr (r, e) ↦ inl (ground arith)
        | inl e ↦ by_verdict (evaluate m.cfg req (spent_today now.day m)).verdict refl a e
      ]
    ]
      where
        by_verdict :
            (v : Verdict)
            → (evaluate m.cfg req (spent_today now.day m)).verdict ≡ v
            → m.stopped ≡ false
            → find k m.rows ≡ none
            → Created req k now m (create req k now m).1
        by_verdict allow q a e = inr (false, e, ground arith, ground arith)
        by_verdict ask q a e = inr (true, e, ground arith, ground arith)
        by_verdict block q a e = inl (ground arith)

    pub create-IsSound : IsSound m → IsSound (create req k now m).1
    create-IsSound h = elim create_adds [
      | inl (rows, sent) ↦ same-IsSound m (create req k now m).1 rows sent h
      | inr (b, e, rows, sent) ↦ record {
        at = λ j.
            rw (rows, sent, find-insert)
              (inserted-IsFine req k b now j (find j m.rows) (count j m.sent) (h.at j));
      }
    ]
