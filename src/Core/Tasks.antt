-- ===== src/Core/Tasks.antt =====
-- astra/core/tasks.py: tasks, their readiness and their execution with retries. The rows are kept in
-- the order of their identifiers; no times, and of the texts of a task only its goal. What the
-- callable of an execution does is a function on a world of its own, which leaves the tasks alone.
pub mod Execution
pub mod Subtree
mod Tests
use astra_ai_agent.Prelude.{
  ℕ, zero, suc, ◌+◌, ◌-◌, Bool, true, false, ◌&&◌, ◌||◌, not, List, [], ◌∷◌, ◌++◌, reverse, Option,
  none, some, ltb, ◌==◌, take, if◌then◌else◌,
}
use astra_ai_agent.Prelude.Int.{ℤ, ltb_ℤ, pos}
use astra_ai_agent.Prelude.Text.{Text, codes}
use astra_ai_agent.Prelude.Json.{Json, number, Fields, no_fields, field}

pub data TaskStatus : Type 0 where
  pending ready running done failed skipped cancelled : TaskStatus

-- A row of `astra_tasks`.
pub record Task : Type 0 where
  pub id : ℕ
  pub parent_task_id : Option ℕ
  pub goal : Text
  pub status : TaskStatus
  pub priority : ℤ
  pub retry_count : ℕ
  pub max_retries : ℕ
  pub dependencies : List ℕ
  pub result : Fields
  pub error : Text

pub data TaskEvent : Type 0 where
  task_created : ℕ → TaskEvent
  task_marked : TaskStatus → ℕ → TaskEvent

pub record TaskEngine : Type 0 where
  pub tasks : List Task
  pub next_task : ℕ
  pub default_max_retries : ℕ
  pub events : List TaskEvent

-- `get`
unfoldable pub find_task : ℕ → List Task → Option Task
find_task k [] = none
find_task k (t ∷ ts) = if t.id == k then some t else find_task k ts

unfoldable pub update_task : ℕ → (Task → Task) → List Task → List Task
update_task k f [] = []
update_task k f (t ∷ ts) = let rest = update_task k f ts in (if t.id == k then f t else t) ∷ rest

-- A parent must exist.
unfoldable pub has_parent : Option ℕ → List Task → Bool
unfolding find_task
has_parent none ts = true
has_parent (some k) ts = elim (find_task k ts) [ none ↦ false | some t ↦ true ]

-- The arguments of `create`.
pub record NewTask : Type 0 where
  pub goal : Text
  pub parent_task_id : Option ℕ
  pub priority : ℤ
  pub dependencies : List ℕ
  pub max_retries : Option ℕ

unfoldable pub retries_of : Option ℕ → ℕ → ℕ
retries_of none n = n
retries_of (some k) n = k

-- `create`: the identifier of the new row, or none when the database refuses the parent.
unfoldable pub create_task : NewTask → TaskEngine → TaskEngine × Option ℕ
unfolding has_parent retries_of
create_task new e = elim (has_parent new.parent_task_id e.tasks) [
  | false ↦ (e, none)
  | true ↦ (
    record e {
      tasks =
          e.tasks
          ++ (record {
            id = e.next_task;
            parent_task_id = new.parent_task_id;
            goal = new.goal;
            status = pending;
            priority = new.priority;
            retry_count = 0;
            max_retries = retries_of new.max_retries e.default_max_retries;
            dependencies = new.dependencies;
            result = no_fields;
            error = [];
          })
            ∷ [];
      next_task = suc e.next_task;
      events = e.events ++ task_created e.next_task ∷ [];
    },
    some e.next_task,
  )
]

unfoldable pub with_mark : TaskStatus → Text → Fields → Task → Task
with_mark status error result t = record t { status = status; error = error; result = result }

-- `mark` of a task that exists. The error and the result are written each time.
unfoldable pub mark : ℕ → TaskStatus → Text → Fields → TaskEngine → TaskEngine
unfolding update_task with_mark
mark k status error result e = record e {
  tasks = update_task k (with_mark status error result) e.tasks;
  events = e.events ++ task_marked status k ∷ [];
}

unfoldable pub is_done : Option Task → Bool
is_done none = false
is_done (some t) = elim t.status [ done ↦ true | _ ↦ false ]

unfoldable pub all_done : List ℕ → List Task → Bool
unfolding is_done find_task
all_done [] ts = true
all_done (k ∷ ks) ts = is_done (find_task k ts) && all_done ks ts

-- `ready`
unfoldable pub is_ready_task : Task → List Task → Bool
unfolding all_done
is_ready_task t ts = all_done t.dependencies ts

unfoldable pub is_pending_task : Task → Bool
is_pending_task t = elim t.status [ pending ↦ true | _ ↦ false ]

unfoldable pub pending_tasks : List Task → List Task
unfolding is_pending_task
pending_tasks [] = []
pending_tasks (t ∷ ts) = let rest = pending_tasks ts in if is_pending_task t then t ∷ rest else rest

-- `self.list(status="pending")`: the newest first, and at most 200 of them.
unfoldable pub newest_pending : TaskEngine → List Task
unfolding pending_tasks
newest_pending e = take 200 (reverse (pending_tasks e.tasks))

-- The loop of `claim_ready`.
unfoldable pub claim_each : List Task → TaskEngine → TaskEngine × List Task
unfolding is_ready_task mark
claim_each [] e = (e, [])
claim_each (t ∷ ts) e = elim (is_ready_task t e.tasks) [
  | false ↦ claim_each ts e
  | true ↦ let rest = claim_each ts (mark t.id ready [] no_fields e) in (rest.0, t ∷ rest.1)
]

-- Sorting by priority, the highest first; equal ones keep their order.
unfoldable pub insert_by_priority : Task → List Task → List Task
insert_by_priority t [] = t ∷ []
insert_by_priority t (u ∷ us) =
    let rest = insert_by_priority t us in
    if ltb_ℤ t.priority u.priority then u ∷ rest else t ∷ u ∷ us

unfoldable pub sort_by_priority : List Task → List Task
unfolding insert_by_priority
sort_by_priority [] = []
sort_by_priority (t ∷ ts) = insert_by_priority t (sort_by_priority ts)

unfoldable pub claim_ready : TaskEngine → TaskEngine × List Task
unfolding newest_pending claim_each sort_by_priority
claim_ready e =
    let claimed = claim_each (newest_pending e) e in (claimed.0, sort_by_priority claimed.1)

-- What a call of the callable comes to: a result, or an exception with its text. A result that cannot
-- be dumped is an exception too: `mark` raises inside the `try`, before it writes anything.
pub data Called : Type 0 where
  finishes : Fields → Called
  crashes : Text → Called

-- How `execute` ends. `out_of_rounds` never happens.
pub data TaskEnd : Type 0 where
  succeeded exhausted task_missing out_of_rounds : TaskEnd

unfoldable pub with_retry : ℕ → Text → Task → Task
with_retry attempt error t = record t { retry_count = attempt; error = take 500 error }

unfoldable pub note_retry : ℕ → ℕ → Text → TaskEngine → TaskEngine
unfolding update_task with_retry
note_retry k attempt error e = record e { tasks = update_task k (with_retry attempt error) e.tasks }

unfoldable pub attempts_field : ℕ → Fields
attempts_field n = field (codes "attempts") (number (pos n)) no_fields

module _ {ℓ} {World : Type ℓ} (fn : World → Option Task → World × Called) where
  -- The loop, for a task with `most` retries, after `attempt` failures; the rounds are fuel.
  unfoldable pub attempt_task :
      ℕ → ℕ → ℕ → Bool → ℕ → TaskEngine → World → TaskEngine × World × TaskEnd
  unfolding find_task mark note_retry attempts_field
  attempt_task zero k most retriable attempt e w = (e, w, out_of_rounds)
  attempt_task (suc rounds) k most retriable attempt e w =
      let called = fn w (find_task k e.tasks) in
      elim called.1 [
        | finishes result ↦ (mark k done [] result e, called.0, succeeded)
        | crashes error ↦
            let noted = note_retry k (suc attempt) error e in
            elim (ltb most (suc attempt) || not retriable) [
              | true ↦
                  (mark k failed error (attempts_field (suc attempt)) noted, called.0, exhausted)
              | false ↦ attempt_task rounds k most retriable (suc attempt) noted called.0
            ]
      ]

  -- `execute`: the retries that are left, and one, are rounds enough.
  unfoldable pub execute_task : ℕ → Bool → TaskEngine → World → TaskEngine × World × TaskEnd
  unfolding find_task mark attempt_task
  execute_task k retriable e w = elim (find_task k e.tasks) [
    | none ↦ (e, w, task_missing)
    | some t ↦
        attempt_task (suc (t.max_retries - t.retry_count)) k t.max_retries retriable t.retry_count
          (mark k running [] no_fields e) w
  ]
