-- ===== src/Web3/Transactions/Invariant.antt =====
-- What holds of every transaction between two calls, and what keeps it.
use astra_ai_agent.Prelude.{
  ℕ, ◌+◌, ◌≤◌, ◌<◌, ◌≡◌, ◌≢◌, ◌⊎◌, inl, inr, sym, Bool, true, false, Option, none, some, List, ◌++◌,
  String, str_eq, eq_iff, arith, Bool-cases, Option-cases,
}
use mathlib.Core.Path.{subst}
use native.Mathlib.Nat.{add-zero}
use astra_ai_agent.Web3.RawTx.{Bytes}
use astra_ai_agent.Web3.Transactions.State.{
  Status, created, prepared, validated, authorized, rejected, Tx, Manager, find, update,
}
use astra_ai_agent.Web3.Transactions.Table.{KeepsId, on_row, find-update, count, count-append}

-- Not signed yet.
abbrev pub is_unsent : Status → Bool
is_unsent created = true
is_unsent prepared = true
is_unsent validated = true
is_unsent authorized = true
is_unsent rejected = true
is_unsent _ = false

-- No approval was needed, or the operator gave it.
abbrev pub IsCleared : Tx → Type 0
IsCleared r = (r.requires_approval ≡ false) ⊎ (r.authorized_by ≡ "policy")

-- A row, with the number of times that a raw transaction of it was handed to the network.
abbrev pub IsFine : Option Tx → ℕ → Type 0
IsFine none n = n ≡ 0
IsFine (some r) n =
    (n ≤ 1)
    × (is_unsent r.status ≡ true → n ≡ 0)
    × (r.status ≡ authorized → IsCleared r)
    × (0 < n → IsCleared r)

pub record IsSound (m : Manager) : Type 0 where
  pub at : (k : String) → IsFine (find k m.rows) (count k m.sent)

-- One row changes, and `extra` is handed to the network on its behalf.
module _ (k : String) (f : Tx → Tx) (extra : List (String × Bytes)) (m m' : Manager) where
  -- What the change has to keep, at its own row.
  abbrev pub KeepsFine : Type 0
  KeepsFine =
      (r : Tx)
      → find k m.rows ≡ some r
      → IsFine (some r) (count k m.sent)
      → IsFine (some (f r)) (count k m.sent + count k extra)

  changed_row :
      KeepsFine
      → (find k m.rows ≡ none → count k extra ≡ 0)
      → IsFine (find k m.rows) (count k m.sent)
      → IsFine (on_row f (find k m.rows)) (count k m.sent + count k extra)
  changed_row here absent h = elim (Option-cases (find k m.rows)) [
    | inl e ↦
        rw e (omega (arith, absent e, subst (λ (o : Option Tx). IsFine o (count k m.sent)) e h))
    | inr (r, e) ↦ rw e (here r e (rw e at h))
  ]

  pub change-IsSound :
      KeepsId f
      → m'.rows ≡ update k f m.rows
      → m'.sent ≡ m.sent ++ extra
      → ((j : String) → j ≢ k → count j extra ≡ 0)
      → KeepsFine
      → (find k m.rows ≡ none → count k extra ≡ 0)
      → IsSound m
      → IsSound m'
  change-IsSound keeps rows sent others here absent h = record { at = λ j. at_key j }
    where
      at_key : (j : String) → IsFine (find j m'.rows) (count j m'.sent)
      at_key j =
          rw (rows, sent, find-update k j f keeps m.rows, count-append)
            (elim (Bool-cases (str_eq k j)) [
              | inl e ↦ rw e (
                  subst
                    (λ (i : String).
                      IsFine (on_row f (find i m.rows)) (count i m.sent + count i extra))
                    ((eq_iff k j).0 e) (changed_row here absent (h.at k)))
              | inr e ↦ rw (e, others j (λ q. cc ((eq_iff k j).1 (sym q), e)), add-zero) (h.at j)
            ])
