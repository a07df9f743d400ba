-- ===== src/Terminal/Approval/Once.antt =====
-- An approved command is handed to the executor at most once, and no other command is.
use astra_ai_agent.Prelude.{
  ℕ, ◌≤◌, ◌<◌, ◌≡◌, refl, Bool, false, Option, none, some, List, [], ◌∷◌, String, arith,
}
use astra_ai_agent.Prelude.Text.{strip}
use astra_ai_agent.Terminal.Approval.{ApprovalRequest, Manager, find, request}
use astra_ai_agent.Terminal.Approval.Deciding.{
  Step, requests, attaches, looks, lists, claims, cancels, fails, starts, finishes, step, run_steps,
}
use astra_ai_agent.Terminal.Approval.Table.{count, count_runs}
use astra_ai_agent.Terminal.Approval.Invariant.{is_unrun, IsFine, IsSound}
use astra_ai_agent.Terminal.Approval.Moves.{
  get-IsSound, expire_all-IsSound, request_of-IsSound, attach_message-IsSound, cancel-IsSound,
  claim-IsSound,
}
use astra_ai_agent.Terminal.Approval.Runs.{unavailable-IsSound, finish-IsSound, start-IsSound}

pub step-IsSound : (s : Step) (m : Manager) → IsSound m → IsSound (step s m)
unfolding step
step-IsSound (requests q k now) m h =
    unfold request in request_of-IsSound q k now (strip q.command) m h
step-IsSound (attaches k i) m h = attach_message-IsSound k i m h
step-IsSound (looks k now) m h = get-IsSound k now m h
step-IsSound (lists now) m h = expire_all-IsSound m.records now m h
step-IsSound (claims k allow by now) m h = claim-IsSound k allow by now m h
step-IsSound (cancels k reason now) m h = cancel-IsSound k reason now m h
step-IsSound (fails k) m h = unavailable-IsSound k m h
step-IsSound (starts k) m h = start-IsSound k m h
step-IsSound (finishes k out) m h = finish-IsSound k out m h

pub run_steps-IsSound : (ss : List Step) (m : Manager) → IsSound m → IsSound (run_steps ss m)
unfolding run_steps
run_steps-IsSound [] m h = h
run_steps-IsSound (s ∷ ss) m h = run_steps-IsSound ss (step s m) (step-IsSound s m h)

-- A manager without requests.
abbrev pub initial : ℕ → ℕ → Bool → Manager
initial max_records ttl_s has_writer = record {
  heap = [];
  records = [];
  order = [];
  max_records = max_records;
  ttl_s = ttl_s;
  has_writer = has_writer;
  events = [];
  cards = [];
  claimed = [];
  running = [];
  runs = [];
}

pub initial-IsSound : (limit ttl : ℕ) (w : Bool) → IsSound (initial limit ttl w)
unfolding find count count_runs
initial-IsSound limit ttl w = record { at = λ k. (refl, refl, refl) }

at_most_one : (o : Option ApprovalRequest) (c u n : ℕ) → IsFine o c u n → n ≤ 1
at_most_one none c u n h = omega arith
at_most_one (some r) c u n h = omega arith

ran_allowed :
    (o : Option ApprovalRequest) (c u n : ℕ)
    → IsFine o c u n
    → 0 < n
    → (r : ApprovalRequest) × (o ≡ some r) × (is_unrun r.status ≡ false)
ran_allowed none c u n h p = absurd (omega arith)
ran_allowed (some r) c u n h p = (r, refl, ground arith)

-- Whatever steps the threads take from a manager without requests, in whatever order: for each
-- request the executor is called at most once.
pub executed_at_most_once :
    (limit ttl : ℕ) (w : Bool) (steps : List Step) (k : String)
    → count_runs k (run_steps steps (initial limit ttl w)).runs ≤ 1
executed_at_most_once limit ttl w steps k =
    at_most_one _ _ _ _
      ((run_steps-IsSound steps (initial limit ttl w) (initial-IsSound limit ttl w)).at k)

-- After such steps, a request for which the executor was called is one that was allowed: it is
-- neither pending nor denied, expired or cancelled.
pub executed-is_unrun :
    (limit ttl : ℕ) (w : Bool) (steps : List Step) (k : String)
    → 0 < count_runs k (run_steps steps (initial limit ttl w)).runs
    → (r : ApprovalRequest) × (find k (run_steps steps (initial limit ttl w)).heap ≡ some r)
      × (is_unrun r.status ≡ false)
executed-is_unrun limit ttl w steps k ran =
    ran_allowed _ _ _ _
      ((run_steps-IsSound steps (initial limit ttl w) (initial-IsSound limit ttl w)).at k) ran
