-- ===== src/Core/Tasks/Subtree/Cancelled.antt =====
-- After the cancellation of a subtree, none of its tasks is pending, ready or running.
use mathlib.Core.Path.{subst}
use astra_ai_agent.Prelude.{
  ℕ, ◌≡◌, ◌⊎◌, refl, sym, ap, ◌∙◌, Bool-cases, false, inl, inr, List, [], ◌∷◌, ◌++◌, some, ◌==◌,
  ==_iff, arith,
}
use astra_ai_agent.Core.Tasks.{
  TaskStatus, pending, ready, running, done, failed, skipped, cancelled, Task, TaskEngine,
  find_task, update_task, with_mark, mark,
}
use astra_ai_agent.Prelude.Json.{no_fields}
use astra_ai_agent.Core.Tasks.Subtree.{is_live, cancel_each, root_task, subtree, cancel_subtree}
use astra_ai_agent.Core.Tasks.Subtree.Walk.{DistinctTasks, In, In-append}
use astra_ai_agent.Core.Tasks.Subtree.Descendants.{Descends, Descends-subtree}

-- A row after an update: an updated one, or as before.
find_task-updated :
    (j k : ℕ) (f : Task → Task)
    → ((t : Task) → (f t).id ≡ t.id)
    → (ts : List Task) {r : Task} → find_task j (update_task k f ts) ≡ some r
    → ((k ≡ j) × ((t : Task) × (f t ≡ r))) ⊎ (find_task j ts ≡ some r)
unfolding find_task update_task
find_task-updated j k f keeps [] h = inr h
find_task-updated j k f keeps (t ∷ ts) {r = r} h = elim (Bool-cases (t.id == k)) [
  | inl e ↦ elim (Bool-cases (t.id == j)) [
    | inl i ↦ inl (
      ground (arith, e, i, ==_iff t.id k, ==_iff t.id j),
      (t, ground (arith, h, e, i, keeps t, ==_iff t.id j, ==_iff (f t).id j)),
    )
    | inr i ↦
        elim (find_task-updated j k f keeps ts {r = r}
          (ground (arith, h, e, i, keeps t, ==_iff t.id j, ==_iff (f t).id j))) [
            | inl x ↦ inl x
            | inr x ↦ inr (ground (arith, x, i))
          ]
  ]
  | inr e ↦ elim (Bool-cases (t.id == j)) [
    | inl i ↦ inr (ground (arith, h, e, i))
    | inr i ↦ elim (find_task-updated j k f keeps ts {r = r} (ground (arith, h, e, i))) [
      | inl x ↦ inl x
      | inr x ↦ inr (ground (arith, x, i))
    ]
  ]
]

-- The row of a task, if there is one, is not live.
abbrev NotLive : ℕ → TaskEngine → Type 0
NotLive j e = (r : Task) → find_task j e.tasks ≡ some r → is_live r.status ≡ false

-- The row of a task has the status that is listed, or is not live.
abbrev Listed : Task → TaskEngine → Type 0
Listed t e =
    (r : Task)
    → find_task t.id e.tasks ≡ some r
    → (r.status ≡ t.status) ⊎ (is_live r.status ≡ false)

abbrev mark_cancelled : ℕ → TaskEngine → TaskEngine
mark_cancelled k e = mark k cancelled [] no_fields e

mark_cancelled-row :
    (j k : ℕ) (e : TaskEngine) {r : Task}
    → find_task j (mark_cancelled k e).tasks ≡ some r
    → ((k ≡ j) × (is_live r.status ≡ false)) ⊎ (find_task j e.tasks ≡ some r)
unfolding mark with_mark is_live
mark_cancelled-row j k e {r = r} h =
    elim (find_task-updated j k (with_mark cancelled [] no_fields) (λ t. refl) e.tasks {r = r} h) [
      | inl (same, (t, w)) ↦ inl (same, ap (λ x. is_live x.status) (sym w))
      | inr x ↦ inr x
    ]

NotLive-mark : (j k : ℕ) (e : TaskEngine) → NotLive j e → NotLive j (mark_cancelled k e)
NotLive-mark j k e s r h = elim (mark_cancelled-row j k e {r = r} h) [
  | inl (same, dead) ↦ dead
  | inr x ↦ s r x
]

-- A task that is marked is not live.
mark_cancelled-NotLive :
    (k : ℕ) (ts : List Task) {r : Task}
    → find_task k (update_task k (with_mark cancelled [] no_fields) ts) ≡ some r
    → is_live r.status ≡ false
unfolding find_task update_task with_mark is_live
mark_cancelled-NotLive k [] h = absurd (ground (arith, h))
mark_cancelled-NotLive k (t ∷ ts) {r = r} h = elim (Bool-cases (t.id == k)) [
  | inl e ↦
      let same : with_mark cancelled [] no_fields t ≡ r = ground (arith, h, e) in
      ap (λ x. is_live x.status) (sym same)
  | inr e ↦ mark_cancelled-NotLive k ts {r = r} (ground (arith, h, e))
]

Listed-mark : (t : Task) (k : ℕ) (e : TaskEngine) → Listed t e → Listed t (mark_cancelled k e)
Listed-mark t k e l r h = elim (mark_cancelled-row t.id k e {r = r} h) [
  | inl (same, dead) ↦ inr dead
  | inr x ↦ l r x
]

NotLive-cancel_each :
    (j : ℕ) (us : List Task) (e : TaskEngine) → NotLive j e → NotLive j (cancel_each us e).0
unfolding cancel_each
NotLive-cancel_each j [] e s = s
NotLive-cancel_each j (u ∷ us) e s = elim (Bool-cases (is_live u.status)) [
  | inl l ↦
      rw (cancel_each, l)
        (NotLive-cancel_each j us (mark_cancelled u.id e) (NotLive-mark j u.id e s))
  | inr l ↦ rw (cancel_each, l) (NotLive-cancel_each j us e s)
]

In-cancel_each :
    (t : Task) (us : List Task) (e : TaskEngine)
    → In t us
    → Listed t e
    → NotLive t.id (cancel_each us e).0
unfolding cancel_each mark
In-cancel_each t [] e i l = absurd i
In-cancel_each t (u ∷ us) e (inl same) l = elim (Bool-cases (is_live u.status)) [
  | inl live ↦
      rw (cancel_each, live)
        (NotLive-cancel_each t.id us (mark_cancelled u.id e) (
          subst (λ i. NotLive i (mark_cancelled u.id e)) (sym (ap (λ x. x.id) same))
            (λ r h. mark_cancelled-NotLive u.id e.tasks {r = r} h)))
  | inr dead ↦
      rw (cancel_each, dead)
        (NotLive-cancel_each t.id us e (λ r h. elim (l r h) [
          | inl s ↦ ap is_live (s ∙ ap (λ x. x.status) same) ∙ dead
          | inr d ↦ d
        ]))
]
In-cancel_each t (u ∷ us) e (inr i) l = elim (Bool-cases (is_live u.status)) [
  | inl live ↦
      rw (cancel_each, live)
        (In-cancel_each t us (mark_cancelled u.id e) i (Listed-mark t u.id e l))
  | inr dead ↦ rw (cancel_each, dead) (In-cancel_each t us e i l)
]

row_Listed : (t : Task) (e : TaskEngine) → find_task t.id e.tasks ≡ some t → Listed t e
row_Listed t e f r h = inl (ground (arith, f, h))

-- Neither pending, nor ready, nor running.
abbrev IsAtRest : TaskStatus → Type 0
IsAtRest pending = ⊥
IsAtRest ready = ⊥
IsAtRest running = ⊥
IsAtRest done = Unit
IsAtRest failed = Unit
IsAtRest skipped = Unit
IsAtRest cancelled = Unit

is_live-IsAtRest : (s : TaskStatus) → is_live s ≡ false → IsAtRest s
unfolding is_live
is_live-IsAtRest pending h = ground (arith, h)
is_live-IsAtRest ready h = ground (arith, h)
is_live-IsAtRest running h = ground (arith, h)
is_live-IsAtRest done h = tt
is_live-IsAtRest failed h = tt
is_live-IsAtRest skipped h = tt
is_live-IsAtRest cancelled h = tt

-- The row of a task, if there is one, is at rest.
abbrev pub Settled : ℕ → TaskEngine → Type 0
Settled j e = (r : Task) → find_task j e.tasks ≡ some r → IsAtRest r.status

cancel_subtree-NotLive :
    (root : ℕ) (e : TaskEngine) {t : Task}
    → DistinctTasks e.tasks
    → find_task t.id e.tasks ≡ some t
    → (t.id ≡ root) ⊎ Descends e.tasks root t
    → NotLive t.id (cancel_subtree root e).0
unfolding cancel_subtree root_task
cancel_subtree-NotLive root e {t = t} d f (inl same) =
    let found : find_task root e.tasks ≡ some t = ap (λ i. find_task i e.tasks) (sym same) ∙ f in
    In-cancel_each t (subtree root e.tasks ++ root_task (find_task root e.tasks)) e
      (In-append t (subtree root e.tasks) (root_task (find_task root e.tasks))
        (inr (rw (root_task, found) (inl refl))))
      (row_Listed t e f)
cancel_subtree-NotLive root e {t = t} d f (inr under) =
    In-cancel_each t (subtree root e.tasks ++ root_task (find_task root e.tasks)) e
      (In-append t (subtree root e.tasks) (root_task (find_task root e.tasks))
        (inl (Descends-subtree e.tasks d root {t = t} under)))
      (row_Listed t e f)

-- For tasks with distinct identifiers: after `cancel_subtree` of a task, neither that task nor any
-- task below it, at any depth, is pending, ready or running, also when the parents of the tasks
-- form a cycle.
pub cancel_subtree-Settled :
    (root : ℕ) (e : TaskEngine) {t : Task}
    → DistinctTasks e.tasks
    → find_task t.id e.tasks ≡ some t
    → (t.id ≡ root) ⊎ Descends e.tasks root t
    → Settled t.id (cancel_subtree root e).0
cancel_subtree-Settled root e {t = t} d f below_root r h =
    is_live-IsAtRest r.status (cancel_subtree-NotLive root e {t = t} d f below_root r h)
