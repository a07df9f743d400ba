-- ===== src/Terminal/Approval/Moves.antt =====
-- Every step that calls no executor keeps the invariant.
use astra_ai_agent.Prelude.{
  ℕ, suc, ◌≡◌, inl, inr, refl, Bool, true, false, Bool-cases, Option-cases, Option, none, some,
  List, [], ◌∷◌, ltb, String, str_eq, eq_iff, arith, if◌then◌else◌,
}
use astra_ai_agent.Prelude.Text.{Text}
use astra_ai_agent.Terminal.Approval.{
  approved, denied, expired, cancelled, ApprovalRequest, Manager, NewRequest, mem, find, lookup,
  is_pending, is_expired, request_of, get, expire_all, prune, attach_message,
}
use astra_ai_agent.Terminal.Approval.Deciding.{by_whom, decide_open, claim, deny, cancel, or_same}
use astra_ai_agent.Terminal.Approval.Table.{on_row, find-update, find-insert, count, count_runs}
use astra_ai_agent.Terminal.Approval.Invariant.{
  is_unrun, IsFine, IsSound, change-IsSound, lookup-find,
}

pub get-IsSound : (k : String) (now : ℕ) (m : Manager) → IsSound m → IsSound (get k now m)
unfolding get
get-IsSound k now m h = elim (Option-cases (lookup k m)) [
  | inl e ↦ rw e h
  | inr (r, e) ↦ elim (Bool-cases (is_expired now r)) [
    | inr x ↦ rw (e, x) h
    | inl x ↦
        rw (e, x)
          (change-IsSound k (λ r. record r { status = expired; resolved_at = now }) m _ (λ r. refl)
            refl refl refl refl (λ q f u. let at = lookup-find k m e in ground arith) h)
  ]
]

pub expire_all-IsSound :
    (ks : List String) (now : ℕ) (m : Manager) → IsSound m → IsSound (expire_all ks now m)
unfolding expire_all
expire_all-IsSound [] now m h = h
expire_all-IsSound (k ∷ ks) now m h =
    expire_all-IsSound ks now (get k now m) (get-IsSound k now m h)

IsFine-insert :
    (b : Bool) (q : ApprovalRequest) (o : Option ApprovalRequest) (c u n : ℕ)
    → IsFine o c u n
    → IsFine (elim o [ some r ↦ some r | none ↦ if b then some q else none ]) c u n
IsFine-insert b q none c u n h = ground arith
IsFine-insert b q (some r) c u n h = h

pub request_of-IsSound :
    (q : NewRequest) (k : String) (now : ℕ) (command : Text) (m : Manager)
    → IsSound m
    → IsSound (or_same m (request_of q k now command m))
request_of-IsSound q k now [] m h = h
request_of-IsSound q k now (c ∷ cs) m h = record {
  at = λ j.
      unfold prune in rw find-insert (IsFine-insert (str_eq k j) _ (find j m.heap) _ _ _ (h.at j));
}

pub attach_message-IsSound :
    (k : String) (i : ℕ) (m : Manager) → IsSound m → IsSound (attach_message k i m)
unfolding attach_message
attach_message-IsSound k i m h = elim (Bool-cases (mem k m.records)) [
  | inl e ↦ rw e (
      change-IsSound k (λ r. record r { message_id = some i }) m _ (λ r. refl) refl refl refl refl
        (λ r f u. u) h)
  | inr e ↦ rw e h
]

pub cancel-IsSound :
    (k : String) (reason : Text) (now : ℕ) (m : Manager)
    → IsSound m
    → IsSound (cancel k reason now m)
unfolding cancel
cancel-IsSound k reason now m h = elim (Option-cases (lookup k m)) [
  | inl e ↦ rw e h
  | inr (r, e) ↦ elim (Bool-cases (is_pending r.status)) [
    | inr x ↦ rw (e, x) h
    | inl x ↦
        rw (e, x)
          (change-IsSound k
            (λ r. record r { status = cancelled; resolved_at = now; error = reason }) m _
            (λ r. refl) refl refl refl refl (λ q f u. let at = lookup-find k m e in ground arith) h)
  ]
]

-- One more thread may execute an open request.
IsFine-grant :
    (b : Bool) (f : ApprovalRequest → ApprovalRequest) (o : Option ApprovalRequest)
    (r : ApprovalRequest) (c u n : ℕ)
    → (b ≡ true → (o ≡ some r) × (is_unrun r.status ≡ true))
    → ((q : ApprovalRequest) → is_unrun (f q).status ≡ false)
    → IsFine o c u n
    → IsFine (if b then on_row f o else o) (if b then suc c else c) u n
IsFine-grant true f none r c u n was runs h = absurd (let w = was refl in cc w.0)
IsFine-grant true f (some q) r c u n was runs h =
    let w = was refl in
    let same : q ≡ r = cc w.0 in
    let zero = h.2 (rw same w.1) in (omega arith, h.1, λ e. cc (e, runs q))
IsFine-grant false f o r c u n was runs h = h

pub claim-IsSound :
    (k : String) (allow : Bool) (by : String) (now : ℕ) (m : Manager)
    → IsSound m
    → IsSound (claim k allow by now m).1
unfolding claim
claim-IsSound k allow by now m h = elim (Option-cases (lookup k m)) [
  | inl e ↦ rw e h
  | inr (r, e) ↦ elim (Bool-cases (is_pending r.status)) [
    | inr x ↦ rw (e, x) h
    | inl x ↦ elim (Bool-cases (ltb r.expires_at now)) [
      | inl y ↦
          rw (e, x, y)
            (change-IsSound k (λ r. record r { status = expired; resolved_at = now }) m _
              (λ r. refl) refl refl refl refl (λ q f u. let at = lookup-find k m e in ground arith)
              h)
      | inr y ↦ rw (e, x, y) (decided r allow (lookup-find k m e) x)
    ]
  ]
]
  where
    decided :
        (r : ApprovalRequest) (b : Bool)
        → find k m.heap ≡ some r
        → is_pending r.status ≡ true
        → IsSound (decide_open b k by now m).1
    decided r false e x =
        change-IsSound k
          (λ r. record r { decided_by = by_whom by; resolved_at = now; status = denied }) m
          (deny k by now m) (λ r. refl) refl refl refl refl (λ q f u. ground arith) h
    decided r true e x = record {
      at = λ j.
          unfold count in
          rw
            (find-update k j
              (λ r. record r { decided_by = by_whom by; resolved_at = now; status = approved })
              (λ r. refl) m.heap)
            (IsFine-grant (str_eq k j) _ (find j m.heap) r (count j m.claimed) (count j m.running)
              (count_runs j m.runs) (λ b. let same = (eq_iff k j).0 b in (cc, ground arith))
              (λ q. refl) (h.at j));
    }
