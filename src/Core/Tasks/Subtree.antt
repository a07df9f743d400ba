-- ===== src/Core/Tasks/Subtree.antt =====
-- The descendants of a task, and their cancellation (`subtree` and `cancel_subtree` of
-- astra/core/tasks.py).
pub mod Walk
pub mod Rounds
pub mod Descendants
pub mod Cancelled
use astra_ai_agent.Prelude.{
  ℕ, zero, suc, ◌+◌, Bool, true, false, ◌||◌, List, [], ◌∷◌, ◌++◌, Option, none, some, ◌==◌, length,
  if◌then◌else◌,
}
use astra_ai_agent.Prelude.Json.{no_fields}
use astra_ai_agent.Core.Tasks.{
  TaskStatus, pending, ready, running, done, failed, skipped, cancelled, Task, TaskEngine,
  find_task, mark,
}

unfoldable pub num_mem : ℕ → List ℕ → Bool
num_mem k [] = false
num_mem k (j ∷ js) = (k == j) || num_mem k js

unfoldable pub is_child : ℕ → Task → Bool
is_child k t = elim t.parent_task_id [ none ↦ false | some p ↦ p == k ]

-- `SELECT * FROM astra_tasks WHERE parent_task_id = ?`
unfoldable pub children : ℕ → List Task → List Task
unfolding is_child
children k [] = []
children k (t ∷ ts) = let rest = children k ts in if is_child k t then t ∷ rest else rest

-- The children that were not seen go on the frontier, whose end, where `pop` takes from, stands
-- first here.
unfoldable pub push_new : List ℕ → List Task → List ℕ → List ℕ
unfolding num_mem
push_new seen [] frontier = frontier
push_new seen (t ∷ ts) frontier =
    push_new seen ts (if num_mem t.id seen then frontier else t.id ∷ frontier)

-- The loop of `subtree`.
unfoldable pub walk : ℕ → List Task → List ℕ → List ℕ → List Task → List Task
unfolding children push_new
walk zero ts frontier seen out = out
walk (suc n) ts [] seen out = out
walk (suc n) ts (k ∷ frontier) seen out =
    walk n ts (push_new (k ∷ seen) (children k ts) frontier) (k ∷ seen) (out ++ children k ts)

-- `subtree`: no task is on the frontier twice, so that there are no more rounds than tasks, and the
-- root, and the end.
unfoldable pub subtree : ℕ → List Task → List Task
unfolding walk
subtree root ts = walk (suc (suc (length ts))) ts (root ∷ []) [] []

-- A status from which a task can be cancelled.
unfoldable pub is_live : TaskStatus → Bool
is_live pending = true
is_live ready = true
is_live running = true
is_live _ = false

-- The loop of `cancel_subtree`, with the count.
unfoldable pub cancel_each : List Task → TaskEngine → TaskEngine × ℕ
unfolding is_live mark
cancel_each [] e = (e, 0)
cancel_each (t ∷ ts) e = elim (is_live t.status) [
  | false ↦ cancel_each ts e
  | true ↦ let rest = cancel_each ts (mark t.id cancelled [] no_fields e) in (rest.0, suc rest.1)
]

unfoldable pub root_task : Option Task → List Task
root_task none = []
root_task (some t) = t ∷ []

unfoldable pub cancel_subtree : ℕ → TaskEngine → TaskEngine × ℕ
unfolding subtree find_task root_task cancel_each
cancel_subtree root e = cancel_each (subtree root e.tasks ++ root_task (find_task root e.tasks)) e
