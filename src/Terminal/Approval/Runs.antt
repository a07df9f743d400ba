-- ===== src/Terminal/Approval/Runs.antt =====
-- The steps around a call of the executor keep the invariant.
use mathlib.Core.Path.{subst}
use astra_ai_agent.Prelude.{
  ℕ, suc, ◌+◌, ◌≤◌, ◌≡◌, ◌≢◌, ◌⊎◌, inl, inr, refl, true, false, Bool-cases, Option-cases, Option,
  none, some, List, [], ◌∷◌, ◌++◌, String, str_eq, eq_iff, arith, if◌then◌else◌,
}
use astra_ai_agent.Prelude.Text.{Text}
use astra_ai_agent.Terminal.Approval.{
  completed, failed, Outcome, ApprovalRequest, Manager, mem, remove, find,
}
use astra_ai_agent.Terminal.Approval.Deciding.{
  no_executor, outcome_of, unavailable, run_of, start, finish, finish_with, is_failure,
}
use astra_ai_agent.Terminal.Approval.Table.{
  find-id, count, count_runs, count-remove, count-remove_other, count_runs-append,
}
use astra_ai_agent.Terminal.Approval.Invariant.{is_unrun, IsFine, FineAt, IsSound, leave-IsSound}

count-remove_le : (k j : String) (ks : List String) → count j (remove k ks) ≤ count j ks
unfolding count remove
count-remove_le k j [] = omega arith
count-remove_le k j (i ∷ ks) = ground (arith, count-remove_le k j ks)

pub unavailable-IsSound : (k : String) (m : Manager) → IsSound m → IsSound (unavailable k m)
unfolding unavailable
unavailable-IsSound k m h = elim (Bool-cases (mem k m.claimed)) [
  | inr e ↦ rw e h
  | inl e ↦ rw e (
      leave-IsSound k (λ r. record r { status = failed; error = no_executor }) m _ (λ r. refl) refl
        (λ j. count-remove_le k j m.claimed) (λ j. omega arith) refl (λ q. refl) h)
]

failure_unrun : (o : Outcome) → is_unrun (if is_failure o then failed else completed) ≡ false
failure_unrun o = ground arith

finish_with-IsSound :
    (k : String) (out : Text ⊎ Outcome) (m : Manager)
    → IsSound m
    → IsSound (finish_with k out (record m { running = remove k m.running }))
finish_with-IsSound k (inl error) m h =
    leave-IsSound k (λ r. record r { status = failed; error = error }) m _ (λ r. refl) refl
      (λ j. omega arith) (λ j. count-remove_le k j m.running) refl (λ q. refl) h
finish_with-IsSound k (inr o) m h =
    leave-IsSound k (outcome_of o) m _ (λ r. refl) refl (λ j. omega arith)
      (λ j. count-remove_le k j m.running) refl (λ q. failure_unrun o) h

pub finish-IsSound :
    (k : String) (out : Text ⊎ Outcome) (m : Manager) → IsSound m → IsSound (finish k out m)
unfolding finish
finish-IsSound k out m h = elim (Bool-cases (mem k m.running)) [
  | inr e ↦ rw e h
  | inl e ↦ rw e (finish_with-IsSound k out m h)
]

-- A thread calls the executor.
IsFine-start :
    (o : Option ApprovalRequest) (c c' u n : ℕ)
    → c ≡ suc c'
    → IsFine o c u n
    → IsFine o c' (suc u) (n + 1)
IsFine-start none c c' u n e h = absurd (omega arith)
IsFine-start (some q) c c' u n e h = (omega arith, omega arith, λ x. let z = h.2 x in omega arith)

runs_of :
    (k : String) (m : Manager) (c' : ℕ)
    → count k m.claimed ≡ suc c'
    → FineAt k m
    → count_runs k (m.runs ++ run_of (find k m.heap)) ≡ count_runs k m.runs + 1
unfolding count_runs
runs_of k m c' e h = elim (Option-cases (find k m.heap)) [
  | inl x ↦ absurd (ground arith)
  | inr (r, x) ↦
      rw (count_runs-append, x) (ground (arith, eq_iff r.approval_id k, find-id k m.heap x))
]

runs_of_other :
    (k j : String) (m : Manager)
    → k ≢ j
    → count_runs j (m.runs ++ run_of (find k m.heap)) ≡ count_runs j m.runs
unfolding count_runs
runs_of_other k j m ne = elim (Option-cases (find k m.heap)) [
  | inl x ↦ rw (count_runs-append, x) (omega arith)
  | inr (r, x) ↦
      rw (count_runs-append, x) (ground (arith, eq_iff r.approval_id j, find-id k m.heap x))
]

-- What `start` leaves when a thread may execute.
abbrev started_at : String → Manager → Manager
started_at k m = record m {
  claimed = remove k m.claimed;
  running = k ∷ m.running;
  runs = m.runs ++ run_of (find k m.heap);
}

started_here :
    (k : String) (m : Manager) → mem k m.claimed ≡ true → FineAt k m → FineAt k (started_at k m)
unfolding count
started_here k m e h =
    let c = count-remove k m.claimed e in
    rw ((eq_iff k k).1 refl, runs_of k m (count k (remove k m.claimed)) c h)
      (IsFine-start (find k m.heap) (count k m.claimed) (count k (remove k m.claimed))
        (count k m.running) (count_runs k m.runs) c h)

started_other :
    (k j : String) (m : Manager) → str_eq k j ≡ false → FineAt j m → FineAt j (started_at k m)
unfolding count
started_other k j m other h =
    let ne : k ≢ j = λ e. cc ((eq_iff k j).1 e, other) in
    rw (other, count-remove_other k j m.claimed ne, runs_of_other k j m ne) h

pub start-IsSound : (k : String) (m : Manager) → IsSound m → IsSound (start k m)
unfolding start
start-IsSound k m h = elim (Bool-cases (mem k m.claimed)) [
  | inr e ↦ rw e h
  | inl e ↦ rw e record {
    at = λ j. elim (Bool-cases (str_eq k j)) [
      | inl same ↦
          subst (λ (i : String). FineAt i (started_at k m)) ((eq_iff k j).0 same)
            (started_here k m e (h.at k))
      | inr other ↦ started_other k j m other (h.at j)
    ];
  }
]
