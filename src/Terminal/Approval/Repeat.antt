-- ===== src/Terminal/Approval/Repeat.antt =====
-- `decide` with nothing in between: what it executes, and what a second call does.
use mathlib.Core.Path.{subst}
use astra_ai_agent.Prelude.{
  ℕ, ◌≡◌, ◌⊎◌, inl, inr, refl, sym, Bool, true, false, Bool-cases, Option-cases, Option, none, some,
  List, ◌∷◌, ◌++◌, String, eq_iff, ltb, arith,
}
use astra_ai_agent.Prelude.Text.{Text}
use astra_ai_agent.Terminal.Approval.{
  Status, approved, denied, expired, failed, Outcome, ApprovalRequest, Run, Manager, mem, find,
  update, lookup, is_pending, is_open, expire,
}
use astra_ai_agent.Terminal.Approval.Deciding.{
  Claim, claim, decide_open, grant, deny, by_whom, no_executor, run_of, start, finish, outcome_of,
  unavailable, execute, after_claim, decide,
}
use astra_ai_agent.Terminal.Approval.Table.{KeepsId, find-update}

-- Nothing is left to decide about the key.
abbrev IsSettled : String → Manager → Type 0
IsSettled k m =
    (lookup k m ≡ none)
    ⊎ ((r : ApprovalRequest) × (lookup k m ≡ some r) × (is_pending r.status ≡ false))

-- An assignment to the object that a key leads to.
touch :
    (k : String) (f : ApprovalRequest → ApprovalRequest) (keeps : KeepsId f) (m m' : Manager)
    (q : ApprovalRequest)
    → m'.records ≡ m.records
    → m'.heap ≡ update k f m.heap
    → lookup k m ≡ some q
    → lookup k m' ≡ some (f q)
unfolding lookup
touch k f keeps m m' q recs heap h =
    rw (recs, heap, find-update k k f keeps m.heap) (ground (arith, eq_iff k k))

found-mem : (k : String) (ks : List String) → mem k (k ∷ ks) ≡ true
unfolding mem
found-mem k ks = ground (arith, eq_iff k k)

module _ (k : String) (g : Manager) (q : ApprovalRequest) (found : lookup k g ≡ some q)
    (at : mem k g.claimed ≡ true) where
  unavailable-IsSettled : IsSettled k (unavailable k g)
  unfolding unavailable
  unavailable-IsSettled = rw at (
      inr (
        record q { status = failed; error = no_executor },
        touch k (λ r. record r { status = failed; error = no_executor }) (λ r. refl) g _ q refl refl
            found,
        refl,
      ))

  finish-IsSettled : (out : Text ⊎ Outcome) → IsSettled k (finish k out (start k g))
  unfolding start finish
  finish-IsSettled (inl error) =
      rw (at, found-mem k g.running)
        (inr (
          record q { status = failed; error = error },
          touch k (λ r. record r { status = failed; error = error }) (λ r. refl) g _ q refl refl
              found,
          refl,
        ))
  finish-IsSettled (inr o) =
      rw (at, found-mem k g.running)
        (inr
          (outcome_of o q, touch k (outcome_of o) (λ r. refl) g _ q refl refl found, ground arith))

  finish-runs :
      (out : Text ⊎ Outcome) → (finish k out (start k g)).runs ≡ g.runs ++ run_of (find k g.heap)
  unfolding start finish
  finish-runs (inl error) = rw (at, found-mem k g.running) refl
  finish-runs (inr o) = rw (at, found-mem k g.running) refl

  found_heap : find k g.heap ≡ some q
  unfolding lookup
  found_heap = ground (arith, found)

  execute-IsSettled :
      (executor : Option (ApprovalRequest → Text ⊎ Outcome))
      → IsSettled k (execute executor k (find k g.heap) g)
  execute-IsSettled none = unavailable-IsSettled
  execute-IsSettled (some f) = rw found_heap (finish-IsSettled (f q))

-- The object of a request that was allowed, and of one that was denied.
abbrev decided_by : Status → String → ℕ → ApprovalRequest → ApprovalRequest
decided_by st by now r = record r { decided_by = by_whom by; resolved_at = now; status = st }

module _ (k : String) (by : String) (now : ℕ) (m : Manager) (r : ApprovalRequest)
    (e : lookup k m ≡ some r) where
  granted_found : lookup k (grant k by now m) ≡ some (decided_by approved by now r)
  granted_found =
      touch k (decided_by approved by now) (λ r. refl) m (grant k by now m) r refl refl e

  granted_at : mem k (grant k by now m).claimed ≡ true
  granted_at = found-mem k m.claimed

  granted-IsSettled :
      (executor : Option (ApprovalRequest → Text ⊎ Outcome)) (allow : Bool)
      → IsSettled k (after_claim executor k (decide_open allow k by now m))
  granted-IsSettled executor true =
      execute-IsSettled k (grant k by now m) (decided_by approved by now r) granted_found granted_at
        executor
  granted-IsSettled executor false = inr (
    decided_by denied by now r,
    touch k (decided_by denied by now) (λ r. refl) m (deny k by now m) r refl refl e,
    refl,
  )

  granted-runs :
      (f : ApprovalRequest → Text ⊎ Outcome)
      → (execute (some f) k (find k (grant k by now m).heap) (grant k by now m)).runs
        ≡ m.runs ++ run_of (some r)
  granted-runs f =
      let at =
        found_heap k (grant k by now m) (decided_by approved by now r) granted_found granted_at in
      rw
        (
          at,
          finish-runs k (grant k by now m) (decided_by approved by now r) granted_found granted_at,
          at,
        )
        refl

  unavailable-runs : (unavailable k (grant k by now m)).runs ≡ m.runs
  unfolding unavailable
  unavailable-runs = rw granted_at refl

module _ (executor : Option (ApprovalRequest → Text ⊎ Outcome)) (k : String) (allow : Bool)
    (by : String) (now : ℕ) where
  settled_decide : (m : Manager) → IsSettled k m → decide executor k allow by now m ≡ m
  unfolding decide claim
  settled_decide m (inl e) = rw e refl
  settled_decide m (inr (r, e, p)) = rw (e, p) refl

  decide-IsSettled : (m : Manager) → IsSettled k (decide executor k allow by now m)
  unfolding decide claim
  decide-IsSettled m = elim (Option-cases (lookup k m)) [
    | inl e ↦ inl (rw e e)
    | inr (r, e) ↦ elim (Bool-cases (is_pending r.status)) [
      | inr p ↦ inr (r, rw (e, p) e, p)
      | inl p ↦ elim (Bool-cases (ltb r.expires_at now)) [
        | inl x ↦
            rw (e, p, x)
              (inr (
                record r { status = expired; resolved_at = now },
                touch k (λ r. record r { status = expired; resolved_at = now }) (λ r. refl) m
                    (expire k now m) r refl refl e,
                refl,
              ))
        | inr x ↦ rw (e, p, x) (granted-IsSettled k by now m r e executor allow)
      ]
    ]
  ]

-- What one call of `decide` executes: the command of the request, once, when the request is found
-- open, the user allows it and there is an executor; else nothing.
abbrev pub RunsOf :
    Option (ApprovalRequest → Text ⊎ Outcome) → String → Bool → ℕ → Manager → List Run → Type 0
RunsOf executor k allow now m runs =
    ((r : ApprovalRequest) × (f : ApprovalRequest → Text ⊎ Outcome) × (lookup k m ≡ some r)
      × (is_open now r ≡ true)
      × (allow ≡ true)
      × (executor ≡ some f)
      × (runs ≡ m.runs ++ run_of (some r)))
    ⊎ ((runs ≡ m.runs)
        × ((allow ≡ false)
            ⊎ ((executor ≡ none)
                ⊎ ((lookup k m ≡ none)
                    ⊎ ((r : ApprovalRequest) × (lookup k m ≡ some r) × (is_open now r ≡ false))))))

module _ (k : String) (by : String) (now : ℕ) (m : Manager) where
  open_runs :
      (executor : Option (ApprovalRequest → Text ⊎ Outcome)) (allow : Bool) (r : ApprovalRequest)
      → lookup k m ≡ some r
      → is_open now r ≡ true
      → RunsOf executor k allow now m (after_claim executor k (decide_open allow k by now m)).runs
  open_runs executor false r e o = inr (refl, inl refl)
  open_runs none true r e o = inr (unavailable-runs k by now m r e, inr (inl refl))
  open_runs (some f) true r e o = inl (r, f, e, o, refl, refl, granted-runs k by now m r e f)

  open_claim :
      (r : ApprovalRequest)
      → lookup k m ≡ some r
      → is_pending r.status ≡ true
      → ltb r.expires_at now ≡ false
      → (allow : Bool) → claim k allow by now m ≡ decide_open allow k by now m
  unfolding claim
  open_claim r e p x allow = rw (e, p, x) refl

  -- One call of `decide` hands the command of the request to the executor, once, exactly when the
  -- request is found open, the user allows it and there is an executor; else it executes nothing.
  pub decide-runs :
      (executor : Option (ApprovalRequest → Text ⊎ Outcome)) (allow : Bool)
      → RunsOf executor k allow now m (decide executor k allow by now m).runs
  unfolding decide claim
  decide-runs executor allow = elim (Option-cases (lookup k m)) [
    | inl e ↦ inr (rw e refl, inr (inr (inl e)))
    | inr (r, e) ↦ elim (Bool-cases (is_pending r.status)) [
      | inr p ↦ inr (rw (e, p) refl, inr (inr (inr (r, e, rw p refl))))
      | inl p ↦ elim (Bool-cases (ltb r.expires_at now)) [
        | inl x ↦ inr (rw (e, p, x) refl, inr (inr (inr (r, e, rw (p, x) refl))))
        | inr x ↦
            subst
              (λ (c : Claim × Manager).
                RunsOf executor k allow now m (after_claim executor k c).runs)
              (sym (open_claim r e p x allow)) (open_runs executor allow r e (rw (p, x) refl))
      ]
    ]
  ]

-- A second decision on a request, by whomever and whichever way, changes nothing.
pub decide-decide :
    (executor executor' : Option (ApprovalRequest → Text ⊎ Outcome)) (k : String)
    (allow allow' : Bool) (by by' : String) (now now' : ℕ) (m : Manager)
    → decide executor' k allow' by' now' (decide executor k allow by now m)
      ≡ decide executor k allow by now m
decide-decide executor executor' k allow allow' by by' now now' m =
    settled_decide executor' k allow' by' now' (decide executor k allow by now m)
      (decide-IsSettled executor k allow by now m)
