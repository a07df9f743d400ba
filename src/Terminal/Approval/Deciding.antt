-- ===== src/Terminal/Approval/Deciding.antt =====
-- `decide`, `cancel` and `_execute` of astra/terminal/approval.py. The claim is one step under the
-- lock; the start of the executor and its end are steps of their own.
use astra_ai_agent.Prelude.{
  ℕ, Bool, true, false, not, ◌&&◌, ◌||◌, ◌⊎◌, inl, inr, Option, none, some, List, [], ◌∷◌, ◌++◌,
  String, str_eq, take, if◌then◌else◌,
}
use astra_ai_agent.Prelude.Int.{ℤ, truthy_ℤ}
use astra_ai_agent.Prelude.Text.{Text, codes, text_eq, text_mem, strip, lower}
use astra_ai_agent.Terminal.Approval.{
  approved, denied, cancelled, completed, failed, Outcome, ApprovalRequest, refused, allowed,
  started, done, broken, Run, Manager, NewRequest, mem, remove, find, lookup, is_pending,
  is_expired, set, emit, write_back, expire, get, expire_all, request, attach_message,
}

-- How the locked part of `decide` ends.
pub data Claim : Type 0 where
  missing settled late refusal granted : Claim

abbrev pub by_whom : String → String
by_whom s = if str_eq s "" then "user" else s

abbrev pub deny : String → String → ℕ → Manager → Manager
deny k by now m = write_back k (
    emit (refused k)
      (set k (λ r. record r { decided_by = by_whom by; resolved_at = now; status = denied }) m))

-- From here on the thread of this call may execute.
abbrev pub grant : String → String → ℕ → Manager → Manager
grant k by now m =
    let g =
      emit (allowed k) (
        set k (λ r. record r { decided_by = by_whom by; resolved_at = now; status = approved })
          m) in
    record g { claimed = k ∷ g.claimed }

abbrev pub decide_open : Bool → String → String → ℕ → Manager → Claim × Manager
decide_open true k by now m = (granted, grant k by now m)
decide_open false k by now m = (refusal, deny k by now m)

abbrev pub claim_found :
    String → Bool → String → ℕ → Option ApprovalRequest → Manager → Claim × Manager
claim_found k allow by now none m = (missing, m)
claim_found k allow by now (some r) m =
    if not (is_pending r.status)
    then (settled, m)
    else if is_expired now r
    then (late, expire k now m)
    else decide_open allow k by now m

unfoldable pub claim : String → Bool → String → ℕ → Manager → Claim × Manager
claim k allow by now m = claim_found k allow by now (lookup k m) m

abbrev pub cancel_found : String → Text → ℕ → Option ApprovalRequest → Manager → Manager
cancel_found k reason now none m = m
cancel_found k reason now (some r) m =
    if is_pending r.status
    then write_back k
        (set k (λ r. record r { status = cancelled; resolved_at = now; error = reason }) m)
    else m

unfoldable pub cancel : String → Text → ℕ → Manager → Manager
cancel k reason now m = cancel_found k reason now (lookup k m) m

abbrev pub fail : String → Text → Manager → Manager
fail k error m =
    write_back k (emit (broken k) (set k (λ r. record r { status = failed; error = error }) m))

abbrev pub no_executor : Text
no_executor = codes "host terminal fallback is not available to Astra; nothing was executed"

-- `_execute` with no executor.
unfoldable pub unavailable : String → Manager → Manager
unavailable k m =
    if mem k m.claimed then fail k no_executor (record m { claimed = remove k m.claimed }) else m

-- What the executor is given: the command of the request.
abbrev pub run_of : Option ApprovalRequest → List Run
run_of none = []
run_of (some r) = record { approval_id = r.approval_id; command = r.command; cwd = r.cwd } ∷ []

-- `_execute` up to the call of the executor.
unfoldable pub start : String → Manager → Manager
start k m =
    if mem k m.claimed
    then emit (started k) (record m {
      claimed = remove k m.claimed;
      running = k ∷ m.running;
      runs = m.runs ++ run_of (find k m.heap);
    })
    else m

-- `result.get("exit_code") not in (None, 0)`
abbrev bad_exit : Option ℤ → Bool
bad_exit none = false
bad_exit (some c) = truthy_ℤ c

unfoldable pub is_failure : Outcome → Bool
is_failure o =
    text_mem (lower o.status) (codes "failed" ∷ codes "timeout" ∷ [])
    || (bad_exit o.exit_code && not (text_eq o.status (codes "running")))

-- `str(result.get("process_id") or result.get("execution_id") or "")`
abbrev pub id_of : Outcome → String
id_of o = if str_eq o.process_id "" then o.execution_id else o.process_id

abbrev pub outcome_of : Outcome → ApprovalRequest → ApprovalRequest
outcome_of o r = record r {
  result = some o;
  executed = true;
  execution_id = id_of o;
  status = if is_failure o then failed else completed;
  error = if is_failure o then take 500 (strip o.stderr) else r.error;
}

abbrev pub finish_as : String → Outcome → Manager → Manager
finish_as k o m =
    write_back k (emit (if is_failure o then broken k else done k) (set k (outcome_of o) m))

-- The rest of `_execute`; `inl` is the text of an exception that the executor raises.
abbrev pub finish_with : String → Text ⊎ Outcome → Manager → Manager
finish_with k (inl error) m = fail k error m
finish_with k (inr o) m = finish_as k o m

unfoldable pub finish : String → Text ⊎ Outcome → Manager → Manager
finish k out m =
    if mem k m.running then finish_with k out (record m { running = remove k m.running }) else m

-- `_execute` with nothing in between.
abbrev pub execute :
    Option (ApprovalRequest → Text ⊎ Outcome) → String → Option ApprovalRequest → Manager → Manager
execute none k o m = unavailable k m
execute (some executor) k none m = m
execute (some executor) k (some r) m = finish k (executor r) (start k m)

abbrev pub after_claim :
    Option (ApprovalRequest → Text ⊎ Outcome) → String → Claim × Manager → Manager
after_claim executor k (granted, m) = execute executor k (find k m.heap) m
after_claim executor k (missing, m) = m
after_claim executor k (settled, m) = m
after_claim executor k (late, m) = m
after_claim executor k (refusal, m) = m

-- `decide`, with nothing in between.
unfoldable pub decide :
    Option (ApprovalRequest → Text ⊎ Outcome) → String → Bool → String → ℕ → Manager → Manager
unfolding claim unavailable start finish
decide executor k allow by now m = after_claim executor k (claim k allow by now m)

-- The steps of all threads.
pub data Step : Type 0 where
  requests : NewRequest → String → ℕ → Step
  attaches : String → ℕ → Step
  looks : String → ℕ → Step
  lists : ℕ → Step
  claims : String → Bool → String → ℕ → Step
  cancels : String → Text → ℕ → Step
  fails : String → Step
  starts : String → Step
  finishes : String → Text ⊎ Outcome → Step

abbrev pub or_same : Manager → Option Manager → Manager
or_same m none = m
or_same m (some m') = m'

unfoldable pub step : Step → Manager → Manager
step (requests q k now) m = or_same m (request q k now m)
step (attaches k i) m = attach_message k i m
step (looks k now) m = get k now m
step (lists now) m = expire_all m.records now m
step (claims k allow by now) m = (claim k allow by now m).1
step (cancels k reason now) m = cancel k reason now m
step (fails k) m = unavailable k m
step (starts k) m = start k m
step (finishes k out) m = finish k out m

unfoldable pub run_steps : List Step → Manager → Manager
run_steps [] m = m
run_steps (s ∷ ss) m = run_steps ss (step s m)
