-- ===== src/Terminal/Approval/Tests.antt =====
-- Runs of the approvals, and their theorems at concrete steps.
use mathlib.Core.Path.{subst}
use astra_ai_agent.Prelude.{
  Bool-cases, str_eq, eq_iff, ◌≤◌, ◌≡◌, ◌⊎◌, inl, inr, refl, true, false, none, some, List, [], ◌∷◌,
  String, arith, length,
}
use astra_ai_agent.Prelude.Int.{pos}
use astra_ai_agent.Prelude.Text.{codes, strip, lower, text_eq, text_mem}
use astra_ai_agent.Terminal.Approval.{
  denied, Outcome, ApprovalRequest, Manager, NewRequest, new_request, mem, remove, remove_all, find,
  update, lookup, waits, prune, prune_order, request,
}
use astra_ai_agent.Terminal.Approval.Deciding.{
  Step, requests, claims, starts, finishes, cancels, claim, start, finish, cancel, step, run_steps,
  decide, is_failure,
}
use astra_ai_agent.Terminal.Approval.Table.{count_runs}
use astra_ai_agent.Terminal.Approval.Invariant.{is_unrun}
use astra_ai_agent.Terminal.Approval.Once.{initial, executed_at_most_once, executed-is_unrun}
use astra_ai_agent.Terminal.Approval.Refused.{HasStatus}
use astra_ai_agent.Terminal.Approval.Final.{refused-final}
use astra_ai_agent.Terminal.Approval.Repeat.{RunsOf, decide-runs, decide-decide}
use astra_ai_agent.Terminal.Approval.Prune.{prune-waits}

abbrev listing : NewRequest
listing = record {
  command = codes " ls -l ";
  cwd = codes "/tmp";
  reason = codes "to see the files";
  conversation_id = some 7;
  request_id = "r1";
  trace_id = "";
  op_id = "";
  session_id = "";
  runtime_id = "";
}

abbrev good : Outcome
good = record {
  process_id = "p1";
  execution_id = "";
  status = codes "completed";
  exit_code = some (pos 0);
  stderr = [];
}

-- Two clicks on Allow, with the execution of the first in between.
abbrev clicks : List Step
clicks =
    requests listing "ap-1" 10
    ∷ claims "ap-1" true "user" 20
    ∷ starts "ap-1"
    ∷ claims "ap-1" true "user" 21
    ∷ starts "ap-1"
    ∷ finishes "ap-1" (inr good)
    ∷ cancels "ap-1" [] 30
    ∷ []

ran_once : count_runs "ap-1" (run_steps clicks (initial 8 900 true)).runs ≡ 1
unfolding run_steps step request claim start finish cancel count_runs mem remove find update lookup
    prune prune_order remove_all strip is_failure text_mem text_eq lower
ran_once = refl

executed_at_most_once_example : count_runs "ap-1" (run_steps clicks (initial 8 900 true)).runs ≤ 1
executed_at_most_once_example = executed_at_most_once 8 900 true clicks "ap-1"

executed-is_unrun_example :
    (r : ApprovalRequest) × (find "ap-1" (run_steps clicks (initial 8 900 true)).heap ≡ some r)
    × (is_unrun r.status ≡ false)
executed-is_unrun_example = executed-is_unrun 8 900 true clicks "ap-1" (omega (arith, ran_once))

abbrev denial : List Step
denial = requests listing "ap-1" 10 ∷ claims "ap-1" false "user" 20 ∷ []

was_denied : HasStatus "ap-1" denied (run_steps denial (initial 8 900 true))
unfolding run_steps step request claim mem remove find update lookup prune prune_order remove_all
    strip
was_denied = (_, refl, refl)

refused-final_example :
    HasStatus "ap-1" denied (run_steps clicks (run_steps denial (initial 8 900 true)))
    × (count_runs "ap-1" (run_steps clicks (run_steps denial (initial 8 900 true))).runs ≡ 0)
refused-final_example = refused-final 8 900 true denial clicks "ap-1" denied refl was_denied

abbrev asked : Manager
asked = record (initial 0 900 true) {
  heap = new_request listing "ap-1" 900 10 ∷ [];
  records = "ap-1" ∷ [];
  order = "ap-1" ∷ [];
}

decide-runs_example :
    RunsOf
      (some (λ r. inr good))
      "ap-1"
      true
      20
      asked
      (decide (some (λ r. inr good)) "ap-1" true "user" 20 asked).runs
decide-runs_example = decide-runs "ap-1" "user" 20 asked (some (λ r. inr good)) true

decide-decide_example :
    decide (some (λ r. inr good)) "ap-1" true "user" 30 (decide none "ap-1" false "user" 20 asked)
    ≡ decide none "ap-1" false "user" 20 asked
decide-decide_example =
    decide-decide none (some (λ r. inr good)) "ap-1" false true "user" "user" 20 30 asked

prune-waits_example :
    ((k : String)
      → waits 20 asked k ≡ true
      → (mem k (prune 20 asked).records ≡ mem k asked.records)
        × (mem k (prune 20 asked).order ≡ mem k asked.order))
    × ((length (prune 20 asked).order ≤ asked.max_records)
        ⊎ ((k : String) × (waits 20 asked k ≡ true) × (mem k (prune 20 asked).order ≡ true)))
prune-waits_example = prune-waits 20 asked

this_waits : waits 20 asked "ap-1" ≡ true
unfolding mem find lookup
this_waits = refl

still_waits : (k : String) → mem k asked.order ≡ true → waits 20 asked k ≡ true
unfolding mem
still_waits k h = elim (Bool-cases (str_eq "ap-1" k)) [
  | inl e ↦ subst (λ (j : String). waits 20 asked j ≡ true) ((eq_iff "ap-1" k).0 e) this_waits
  | inr e ↦ absurd (cc (rw e at h))
]
