-- ===== src/Core/Tasks/Subtree/Descendants.antt =====
-- The walk over a subtree finds every descendant.
use astra_ai_agent.Prelude.{ℕ, ◌≡◌, ap, true, inl, inr, List, Option-cases, some, ==_iff, arith}
use astra_ai_agent.Core.Tasks.{Task, find_task}
use astra_ai_agent.Core.Tasks.Subtree.{num_mem, is_child, subtree}
use astra_ai_agent.Core.Tasks.Subtree.Walk.{parent_in, DistinctTasks, In}
use astra_ai_agent.Core.Tasks.Subtree.Rounds.{Found, subtree-Found}

-- A task below the root.
pub data Descends (ts : List Task) (root : ℕ) : Task → Type 0 where
  child : {t : Task} → find_task t.id ts ≡ some t → is_child root t ≡ true → Descends ts root t
  below :
      {t u : Task}
      → Descends ts root u
      → find_task t.id ts ≡ some t
      → is_child u.id t ≡ true
      → Descends ts root t

parent_in_lem :
    (k : ℕ) (seen : List ℕ) (t : Task)
    → is_child k t ≡ true
    → num_mem k seen ≡ true
    → parent_in seen t ≡ true
unfolding parent_in is_child
parent_in_lem k seen t c m = elim (Option-cases t.parent_task_id) [
  | inl n ↦ absurd (ground (arith, n, c))
  | inr (p, e) ↦
      let same : p ≡ k = ground (arith, e, c, ==_iff p k) in
      ground (arith, e, ap (λ i. num_mem i seen) same, m)
]

Descends-Found :
    (ts : List Task) (distinct : DistinctTasks ts) (root : ℕ) (out : List Task) {t : Task}
    → (found : Found ts distinct root out) → Descends ts root t
    → (num_mem t.id found.0 ≡ true) × In t out
Descends-Found ts distinct root out {t = t} found (child f c) =
    found.2 t f (parent_in_lem root found.0 t c found.1)
Descends-Found ts distinct root out {t = t} found (below {u = u} d f c) =
    let up = Descends-Found ts distinct root out {t = u} found d in
    found.2 t f (parent_in_lem u.id found.0 t c up.0)

pub Descends-subtree :
    (ts : List Task)
    → DistinctTasks ts
    → (root : ℕ) {t : Task} → Descends ts root t
    → In t (subtree root ts)
Descends-subtree ts distinct root {t = t} d =
    (Descends-Found ts distinct root (subtree root ts) {t = t} (subtree-Found ts distinct root) d).1
