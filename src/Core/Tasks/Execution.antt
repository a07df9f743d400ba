-- ===== src/Core/Tasks/Execution.antt =====
-- The execution of a task comes to an end.
use astra_ai_agent.Prelude.{ℕ, suc, ◌+◌, ◌≤◌, ◌≡◌, ◌⊎◌, Bool, true, Option, none, some}
use astra_ai_agent.Prelude.Text.{Text}
use astra_ai_agent.Core.Tasks.{
  done, failed, Task, TaskEngine, find_task, TaskEnd, succeeded, exhausted,
}

abbrev on_task : (Task → Task) → Option Task → Option Task
on_task f none = none
on_task f (some t) = some (f t)

-- How an execution ends that `attempt` failures precede, with room for `left` retries, in which the
-- callable was called `calls` times: the task is done after at most so many failures more, each of
-- them a call, and one call; or it has failed after at most one failure more than that, each of them
-- a call, and exactly so many if it is retriable.
abbrev pub Ended : ℕ → Bool → ℕ → ℕ → TaskEnd → TaskEngine → ℕ → Type 0
Ended k retriable attempt left end e calls =
    (t : Task) × (find_task k e.tasks ≡ some t)
    × (((end ≡ succeeded)
          × (t.status ≡ done)
          × (t.retry_count ≤ attempt + left)
          × (attempt + calls ≡ suc t.retry_count))
        ⊎ ((end ≡ exhausted)
            × (t.status ≡ failed)
            × (t.retry_count ≤ suc (attempt + left))
            × (attempt + calls ≡ t.retry_count)
            × (retriable ≡ true → t.retry_count ≡ suc (attempt + left))))
