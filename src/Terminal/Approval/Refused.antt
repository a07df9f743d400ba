-- ===== src/Terminal/Approval/Refused.antt =====
-- What a refused request keeps through each step.
use astra_ai_agent.Prelude.{
  ℕ, ◌≡◌, ◌≢◌, ◌⊎◌, inl, inr, refl, ◌∙◌, Bool, true, false, Bool-cases, Option-cases, Option, none,
  some, List, [], ◌∷◌, String, str_eq, eq_iff, ltb, arith,
}
use astra_ai_agent.Prelude.Text.{Text}
use astra_ai_agent.Terminal.Approval.{
  Status, approved, denied, expired, cancelled, failed, Outcome, ApprovalRequest, Manager,
  NewRequest, mem, remove, find, update, lookup, is_pending, is_expired, request_of, get,
  expire_all, prune, attach_message,
}
use astra_ai_agent.Terminal.Approval.Deciding.{
  claim, cancel, unavailable, start, finish, or_same, by_whom, finish_with, outcome_of, no_executor,
  decide_open,
}
use astra_ai_agent.Terminal.Approval.Table.{
  KeepsId, find-update, find-insert, count_runs, count-mem,
}
use astra_ai_agent.Terminal.Approval.Invariant.{is_unrun, IsFine, IsSound, lookup-find}

-- The request is denied, expired or cancelled.
abbrev pub is_refused : Status → Bool
is_refused denied = true
is_refused expired = true
is_refused cancelled = true
is_refused _ = false

abbrev StatusIn : String → Status → List ApprovalRequest → Type 0
StatusIn k st heap = (r : ApprovalRequest) × (find k heap ≡ some r) × (r.status ≡ st)

abbrev pub HasStatus : String → Status → Manager → Type 0
HasStatus k st m = StatusIn k st m.heap

unrun_refused : (st : Status) → is_refused st ≡ true → is_unrun st ≡ true
unrun_refused st h = ground arith

unrun_counts :
    (o : Option ApprovalRequest) (r : ApprovalRequest) (st : Status) (c u n : ℕ)
    → o ≡ some r
    → r.status ≡ st
    → is_refused st ≡ true
    → IsFine o c u n
    → (c ≡ 0) × (u ≡ 0) × (n ≡ 0)
unrun_counts none r st c u n e s ref h = h
unrun_counts (some q) r st c u n e s ref h =
    let same : q ≡ r = cc in
    let zero = h.2 (rw (same, s) (unrun_refused st ref)) in (omega arith, omega arith, omega arith)

module _ (k : String) (st : Status) where
  change-HasStatus :
      (j : String) (f : ApprovalRequest → ApprovalRequest) (heap : List ApprovalRequest)
      → KeepsId f
      → ((r : ApprovalRequest) → find k heap ≡ some r → j ≡ k → (f r).status ≡ r.status)
      → StatusIn k st heap
      → StatusIn k st (update j f heap)
  change-HasStatus j f heap keeps same (r, e, s) = elim (Bool-cases (str_eq j k)) [
    | inl b ↦ (f r, rw (find-update j k f keeps heap, b, e) refl, same r e ((eq_iff j k).0 b) ∙ s)
    | inr b ↦ (r, rw (find-update j k f keeps heap, b) e, s)
  ]

  -- A request that is not pending is passed over by whatever looks for a pending one.
  pending_only :
      (j : String) (m : Manager) {q : ApprovalRequest}
      → is_refused st ≡ true
      → lookup j m ≡ some q
      → is_pending q.status ≡ true
      → HasStatus k st m
      → (r : ApprovalRequest) → find k m.heap ≡ some r
      → j ≢ k
  pending_only j m ref found p (r', e', s') r e same =
      let at = lookup-find j m found in ground arith

  pub get-HasStatus :
      (j : String) (now : ℕ) (m : Manager)
      → is_refused st ≡ true
      → HasStatus k st m
      → HasStatus k st (get j now m)
  unfolding get
  get-HasStatus j now m ref h = elim (Option-cases (lookup j m)) [
    | inl e ↦ rw e h
    | inr (q, e) ↦ elim (Bool-cases (is_expired now q)) [
      | inr x ↦ rw (e, x) h
      | inl x ↦
          rw (e, x)
            (change-HasStatus j (λ r. record r { status = expired; resolved_at = now }) m.heap
              (λ r. refl) (λ r f same. absurd (pending_only j m ref e (ground arith) h r f same)) h)
    ]
  ]

  pub expire_all-HasStatus :
      (js : List String) (now : ℕ) (m : Manager)
      → is_refused st ≡ true
      → HasStatus k st m
      → HasStatus k st (expire_all js now m)
  unfolding expire_all
  expire_all-HasStatus [] now m ref h = h
  expire_all-HasStatus (j ∷ js) now m ref h =
      expire_all-HasStatus js now (get j now m) ref (get-HasStatus j now m ref h)

  pub cancel-HasStatus :
      (j : String) (reason : Text) (now : ℕ) (m : Manager)
      → is_refused st ≡ true
      → HasStatus k st m
      → HasStatus k st (cancel j reason now m)
  unfolding cancel
  cancel-HasStatus j reason now m ref h = elim (Option-cases (lookup j m)) [
    | inl e ↦ rw e h
    | inr (q, e) ↦ elim (Bool-cases (is_pending q.status)) [
      | inr x ↦ rw (e, x) h
      | inl x ↦
          rw (e, x)
            (change-HasStatus j
              (λ r. record r { status = cancelled; resolved_at = now; error = reason }) m.heap
              (λ r. refl) (λ r f same. absurd (pending_only j m ref e x h r f same)) h)
    ]
  ]

  decide_open-HasStatus :
      (b : Bool) (j by : String) (now : ℕ) (m : Manager)
      → ((r : ApprovalRequest) → find k m.heap ≡ some r → j ≢ k)
      → HasStatus k st m
      → HasStatus k st (decide_open b j by now m).1
  decide_open-HasStatus true j by now m other h =
      change-HasStatus j
        (λ r. record r { decided_by = by_whom by; resolved_at = now; status = approved }) m.heap
        (λ r. refl) (λ r f same. absurd (other r f same)) h
  decide_open-HasStatus false j by now m other h =
      change-HasStatus j
        (λ r. record r { decided_by = by_whom by; resolved_at = now; status = denied }) m.heap
        (λ r. refl) (λ r f same. absurd (other r f same)) h

  pub claim-HasStatus :
      (j : String) (b : Bool) (by : String) (now : ℕ) (m : Manager)
      → is_refused st ≡ true
      → HasStatus k st m
      → HasStatus k st (claim j b by now m).1
  unfolding claim
  claim-HasStatus j b by now m ref h = elim (Option-cases (lookup j m)) [
    | inl e ↦ rw e h
    | inr (q, e) ↦ elim (Bool-cases (is_pending q.status)) [
      | inr x ↦ rw (e, x) h
      | inl x ↦ elim (Bool-cases (ltb q.expires_at now)) [
        | inl y ↦
            rw (e, x, y)
              (change-HasStatus j (λ r. record r { status = expired; resolved_at = now }) m.heap
                (λ r. refl) (λ r f same. absurd (pending_only j m ref e x h r f same)) h)
        | inr y ↦ rw (e, x, y) (decide_open-HasStatus b j by now m (pending_only j m ref e x h) h)
      ]
    ]
  ]

  pub request_of-HasStatus :
      (q : NewRequest) (j : String) (now : ℕ) (command : Text) (m : Manager)
      → HasStatus k st m
      → HasStatus k st (or_same m (request_of q j now command m))
  request_of-HasStatus q j now [] m h = h
  request_of-HasStatus q j now (c ∷ cs) m (r, e, s) =
      unfold prune in (r, rw (find-insert, e) refl, s)

  pub attach-HasStatus :
      (j : String) (i : ℕ) (m : Manager) → HasStatus k st m → HasStatus k st (attach_message j i m)
  unfolding attach_message
  attach-HasStatus j i m h = elim (Bool-cases (mem j m.records)) [
    | inl e ↦ rw e (
        change-HasStatus j (λ r. record r { message_id = some i }) m.heap (λ r. refl)
          (λ r f same. refl) h)
    | inr e ↦ rw e h
  ]

  -- No thread is at a refused request.
  pub no_threads :
      (m : Manager)
      → is_refused st ≡ true
      → IsSound m
      → HasStatus k st m
      → (mem k m.claimed ≡ false) × (mem k m.running ≡ false) × (count_runs k m.runs ≡ 0)
  no_threads m ref sound (r, e, s) =
      let fine = unrun_counts (find k m.heap) r st _ _ _ e s ref (sound.at k) in
      (count-mem k m.claimed fine.0, count-mem k m.running fine.1, fine.2)

  pub unavailable-HasStatus :
      (j : String) (m : Manager)
      → mem k m.claimed ≡ false
      → HasStatus k st m
      → HasStatus k st (unavailable j m)
  unfolding unavailable
  unavailable-HasStatus j m idle h = elim (Bool-cases (mem j m.claimed)) [
    | inr e ↦ rw e h
    | inl e ↦ rw e (
        change-HasStatus j (λ r. record r { status = failed; error = no_executor }) m.heap
          (λ r. refl) (λ r f same. cc) h)
  ]

  pub start-HasStatus : (j : String) (m : Manager) → HasStatus k st m → HasStatus k st (start j m)
  unfolding start
  start-HasStatus j m h = elim (Bool-cases (mem j m.claimed)) [ inr e ↦ rw e h | inl e ↦ rw e h ]

  finish_with-HasStatus :
      (j : String) (out : Text ⊎ Outcome) (m : Manager)
      → j ≢ k
      → HasStatus k st m
      → HasStatus k st (finish_with j out m)
  finish_with-HasStatus j (inl error) m ne h =
      change-HasStatus j (λ r. record r { status = failed; error = error }) m.heap (λ r. refl)
        (λ r f same. absurd (ne same)) h
  finish_with-HasStatus j (inr o) m ne h =
      change-HasStatus j (outcome_of o) m.heap (λ r. refl) (λ r f same. absurd (ne same)) h

  pub finish-HasStatus :
      (j : String) (out : Text ⊎ Outcome) (m : Manager)
      → mem k m.running ≡ false
      → HasStatus k st m
      → HasStatus k st (finish j out m)
  unfolding finish
  finish-HasStatus j out m idle h = elim (Bool-cases (mem j m.running)) [
    | inr e ↦ rw e h
    | inl e ↦
        rw e
          (finish_with-HasStatus j out (record m { running = remove j m.running }) (λ same. cc) h)
  ]
