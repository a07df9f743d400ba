-- ===== src/Terminal/Approval/Final.antt =====
-- A refusal is final.
use astra_ai_agent.Prelude.{ℕ, ◌≡◌, Bool, true, List, [], ◌∷◌, String}
use astra_ai_agent.Prelude.Text.{strip}
use astra_ai_agent.Terminal.Approval.{Status, Manager, request}
use astra_ai_agent.Terminal.Approval.Deciding.{
  Step, requests, attaches, looks, lists, claims, cancels, fails, starts, finishes, step, run_steps,
}
use astra_ai_agent.Terminal.Approval.Table.{count_runs}
use astra_ai_agent.Terminal.Approval.Invariant.{IsSound}
use astra_ai_agent.Terminal.Approval.Once.{
  step-IsSound, initial, run_steps-IsSound, initial-IsSound,
}
use astra_ai_agent.Terminal.Approval.Refused.{
  is_refused, HasStatus, get-HasStatus, expire_all-HasStatus, cancel-HasStatus, claim-HasStatus,
  request_of-HasStatus, attach-HasStatus, no_threads, unavailable-HasStatus, start-HasStatus,
  finish-HasStatus,
}

module _ (k : String) (st : Status) where
  step-HasStatus :
      (s : Step) (m : Manager)
      → is_refused st ≡ true
      → IsSound m
      → HasStatus k st m
      → HasStatus k st (step s m)
  unfolding step
  step-HasStatus (requests q j now) m ref sound h =
      unfold request in request_of-HasStatus k st q j now (strip q.command) m h
  step-HasStatus (attaches j i) m ref sound h = attach-HasStatus k st j i m h
  step-HasStatus (looks j now) m ref sound h = get-HasStatus k st j now m ref h
  step-HasStatus (lists now) m ref sound h = expire_all-HasStatus k st m.records now m ref h
  step-HasStatus (claims j allow by now) m ref sound h = claim-HasStatus k st j allow by now m ref h
  step-HasStatus (cancels j reason now) m ref sound h = cancel-HasStatus k st j reason now m ref h
  step-HasStatus (fails j) m ref sound h =
      unavailable-HasStatus k st j m (no_threads k st m ref sound h).0 h
  step-HasStatus (starts j) m ref sound h = start-HasStatus k st j m h
  step-HasStatus (finishes j out) m ref sound h =
      finish-HasStatus k st j out m (no_threads k st m ref sound h).1 h

  run_steps-HasStatus :
      (ss : List Step) (m : Manager)
      → is_refused st ≡ true
      → IsSound m
      → HasStatus k st m
      → HasStatus k st (run_steps ss m)
  unfolding run_steps
  run_steps-HasStatus [] m ref sound h = h
  run_steps-HasStatus (s ∷ ss) m ref sound h =
      run_steps-HasStatus ss (step s m) ref (step-IsSound s m sound)
        (step-HasStatus s m ref sound h)

-- A request that is denied, expired or cancelled after some steps from a manager without requests
-- keeps that status whatever steps follow, and the executor is never called for it.
pub refused-final :
    (limit ttl : ℕ) (w : Bool) (before after : List Step) (k : String) (st : Status)
    → is_refused st ≡ true
    → HasStatus k st (run_steps before (initial limit ttl w))
    → HasStatus k st (run_steps after (run_steps before (initial limit ttl w)))
      × (count_runs k (run_steps after (run_steps before (initial limit ttl w))).runs ≡ 0)
refused-final limit ttl w before after k st ref h =
    let m = run_steps before (initial limit ttl w) in
    let sound = run_steps-IsSound before (initial limit ttl w) (initial-IsSound limit ttl w) in
    let kept = run_steps-HasStatus k st after m ref sound h in
    (kept, (no_threads k st (run_steps after m) ref (run_steps-IsSound after m sound) kept).2)
