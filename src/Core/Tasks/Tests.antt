-- ===== src/Core/Tasks/Tests.antt =====
-- Tasks at concrete rows.
use astra_ai_agent.Prelude.{ℕ, suc, ltb, ◌≡◌, refl, true, false, inr, [], ◌∷◌, Option, none, some}
use astra_ai_agent.Prelude.Int.{pos}
use astra_ai_agent.Prelude.Text.{codes}
use astra_ai_agent.Prelude.Json.{no_fields}
use astra_ai_agent.Core.Tasks.{
  pending, NewTask, Task, TaskEngine, find_task, create_task, claim_ready, Called, finishes,
  crashes, succeeded, execute_task,
}
use astra_ai_agent.Core.Tasks.Subtree.{is_child, cancel_subtree}
use astra_ai_agent.Core.Tasks.Subtree.Cancelled.{Settled, cancel_subtree-Settled}
use astra_ai_agent.Core.Tasks.Subtree.Descendants.{Descends, child, below}
use astra_ai_agent.Core.Tasks.Subtree.Walk.{DistinctTasks, has_task}

abbrev no_tasks : TaskEngine
no_tasks = record { tasks = []; next_task = 1; default_max_retries = 2; events = [] }

abbrev research : NewTask
research = record {
  goal = codes "research";
  parent_task_id = none;
  priority = pos 1;
  dependencies = [];
  max_retries = none;
}

abbrev verify : NewTask
verify = record research { priority = pos 5; dependencies = 1 ∷ [] }

abbrev two_tasks : TaskEngine
two_tasks = (create_task verify (create_task research no_tasks).0).0

abbrev research_row : Task
research_row = record {
  id = 1;
  parent_task_id = none;
  goal = codes "research";
  status = pending;
  priority = pos 1;
  retry_count = 0;
  max_retries = 2;
  dependencies = [];
  result = no_fields;
  error = [];
}

-- Only the task without dependencies is claimed.
test_claim : (claim_ready two_tasks).1 ≡ research_row ∷ []
unfolding claim_ready create_task
test_claim = refl

-- A callable that fails until it was called twice.
abbrev third_time : ℕ → Option Task → ℕ × Called
third_time w t =
    (suc w, elim (ltb w 2) [ true ↦ crashes (codes "busy") | false ↦ finishes no_fields ])

test_third : (execute_task third_time 1 true two_tasks 0).2 ≡ succeeded
unfolding execute_task create_task
test_third = refl

abbrev report : NewTask
report = record research { parent_task_id = some 1 }

abbrev source : NewTask
source = record research { parent_task_id = some 2 }

-- A plan of three tasks: each is the parent of the next.
abbrev plan : TaskEngine
plan = (create_task source (create_task report (create_task research no_tasks).0).0).0

abbrev report_row : Task
report_row = record research_row { id = 2; parent_task_id = some 1 }

abbrev source_row : Task
source_row = record research_row { id = 3; parent_task_id = some 2 }

test_cancelled : (cancel_subtree 1 plan).1 ≡ 3
unfolding cancel_subtree create_task
test_cancelled = refl

test_source : find_task 3 plan.tasks ≡ some source_row
unfolding create_task
test_source = refl

report-Descends : Descends plan.tasks 1 report_row
unfolding create_task is_child
report-Descends = child refl refl

source-Descends : Descends plan.tasks 1 source_row
unfolding create_task is_child
source-Descends = below report-Descends test_source refl

plan-DistinctTasks : DistinctTasks plan.tasks
unfolding create_task has_task
plan-DistinctTasks = (refl, (refl, (refl, tt)))

cancel_subtree-Settled_example : Settled 3 (cancel_subtree 1 plan).0
cancel_subtree-Settled_example =
    cancel_subtree-Settled 1 plan {t = source_row} plan-DistinctTasks test_source
      (inr source-Descends)
