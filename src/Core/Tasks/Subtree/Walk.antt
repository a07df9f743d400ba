-- ===== src/Core/Tasks/Subtree/Walk.antt =====
-- What one round of the walk over a subtree does to the frontier and to what was seen.
use mathlib.Core.Path.{subst}
use astra_ai_agent.Prelude.{
  ℕ, suc, ◌+◌, ◌≤◌, ◌≡◌, ◌⊎◌, refl, sym, ap, ◌∙◌, Bool, Bool-cases, true, false, ◌||◌, inl, inr,
  List, [], ◌∷◌, ◌++◌, Option-cases, none, some, ◌==◌, ==_iff, length, arith, if◌then◌else◌,
}
use astra_ai_agent.Core.Tasks.{Task, find_task}
use astra_ai_agent.Core.Tasks.Subtree.{num_mem, is_child, children, push_new}

unfoldable pub parent_in : List ℕ → Task → Bool
parent_in seen t = elim t.parent_task_id [ none ↦ false | some p ↦ num_mem p seen ]

-- The tasks whose parent was not seen.
unfoldable pub waiting : List ℕ → List Task → ℕ
waiting seen [] = 0
waiting seen (t ∷ ts) = if parent_in seen t then waiting seen ts else suc (waiting seen ts)

pub waiting-children :
    (k : ℕ) (seen : List ℕ) (ts : List Task)
    → num_mem k seen ≡ false
    → waiting (k ∷ seen) ts + length (children k ts) ≡ waiting seen ts
unfolding waiting parent_in children is_child num_mem
waiting-children k seen [] h = omega arith
waiting-children k seen (t ∷ ts) h = elim (Option-cases t.parent_task_id) [
  | inl n ↦ ground (arith, n, waiting-children k seen ts h)
  | inr (p, e) ↦ elim (Bool-cases (p == k)) [
    | inl same ↦ ground (arith, e, h, same, ==_iff p k, waiting-children k seen ts h)
    | inr other ↦ ground (arith, e, other, waiting-children k seen ts h)
  ]
]

pub length-push_new :
    (seen : List ℕ) (cs : List Task) (frontier : List ℕ)
    → length (push_new seen cs frontier) ≤ length cs + length frontier
unfolding push_new
length-push_new seen [] frontier = omega arith
length-push_new seen (t ∷ cs) frontier =
    ground (arith, length-push_new seen cs frontier, length-push_new seen cs (t.id ∷ frontier))

pub mem-push_new :
    (seen : List ℕ) (cs : List Task) (frontier : List ℕ) (j : ℕ)
    → num_mem j frontier ≡ true
    → num_mem j (push_new seen cs frontier) ≡ true
unfolding push_new num_mem
mem-push_new seen [] frontier j h = h
mem-push_new seen (t ∷ cs) frontier j h =
    ground (arith, h, mem-push_new seen cs frontier j, mem-push_new seen cs (t.id ∷ frontier) j)

-- A list of tasks has a task with the identifier.
unfoldable pub has_task : ℕ → List Task → Bool
has_task k [] = false
has_task k (t ∷ ts) = (t.id == k) || has_task k ts

-- A child is on the frontier, or was seen.
pub push_new-child :
    (seen : List ℕ) (cs : List Task) (frontier : List ℕ) (j : ℕ)
    → has_task j cs ≡ true
    → (num_mem j seen ≡ true) ⊎ (num_mem j (push_new seen cs frontier) ≡ true)
unfolding push_new num_mem has_task
push_new-child seen [] frontier j h = absurd (ground (arith, h))
push_new-child seen (t ∷ cs) frontier j h = elim (Bool-cases (has_task j cs)) [
  | inl later ↦
      push_new-child seen cs (if num_mem t.id seen then frontier else t.id ∷ frontier) j later
  | inr none_later ↦ elim (Bool-cases (num_mem t.id seen)) [
    | inl old ↦ inl (ground (arith, h, none_later, old, ==_iff t.id j))
    | inr new ↦ inr (
        ground (
          arith,
          h,
          none_later,
          new,
          ==_iff t.id j,
          ==_iff j t.id,
          mem-push_new seen cs (t.id ∷ frontier) j,
        ))
  ]
]

abbrev pub DistinctIds : List ℕ → Type 0
DistinctIds [] = Unit
DistinctIds (k ∷ ks) = (num_mem k ks ≡ false) × DistinctIds ks

abbrev pub DistinctTasks : List Task → Type 0
DistinctTasks [] = Unit
DistinctTasks (t ∷ ts) = (has_task t.id ts ≡ false) × DistinctTasks ts

-- The task stands in the list.
abbrev pub In : Task → List Task → Type 0
In t [] = ⊥
In t (u ∷ us) = (t ≡ u) ⊎ In t us

pub In-append : (t : Task) (us vs : List Task) → In t us ⊎ In t vs → In t (us ++ vs)
In-append t [] vs (inl h) = absurd h
In-append t [] vs (inr h) = h
In-append t (u ∷ us) vs (inl (inl e)) = inl e
In-append t (u ∷ us) vs (inl (inr h)) = inr (In-append t us vs (inl h))
In-append t (u ∷ us) vs (inr h) = inr (In-append t us vs (inr h))

-- What is on the frontier was there, or is a child that was not seen.
pub push_new-source :
    (seen : List ℕ) (cs : List Task) (frontier : List ℕ) (j : ℕ)
    → num_mem j (push_new seen cs frontier) ≡ true
    → (num_mem j frontier ≡ true) ⊎ ((has_task j cs ≡ true) × (num_mem j seen ≡ false))
unfolding push_new num_mem has_task
push_new-source seen [] frontier j h = inl h
push_new-source seen (t ∷ cs) frontier j h = elim (Bool-cases (num_mem t.id seen)) [
  | inl old ↦ elim (push_new-source seen cs frontier j (ground (arith, h, old))) [
    | inl a ↦ inl a
    | inr (b, c) ↦ inr (ground (arith, b), c)
  ]
  | inr new ↦ elim (push_new-source seen cs (t.id ∷ frontier) j (ground (arith, h, new))) [
    | inl a ↦ elim (Bool-cases (num_mem j frontier)) [
      | inl m ↦ inl m
      | inr m ↦
          let same : j ≡ t.id = ground (arith, a, m, ==_iff j t.id) in
          inr (ground (arith, same, ==_iff t.id j), ap (λ i. num_mem i seen) same ∙ new)
    ]
    | inr (b, c) ↦ inr (ground (arith, b), c)
  ]
]

pub push_new-DistinctIds :
    (seen : List ℕ) (cs : List Task) (frontier : List ℕ)
    → DistinctTasks cs
    → ((j : ℕ) → has_task j cs ≡ true → num_mem j seen ≡ false → num_mem j frontier ≡ false)
    → DistinctIds frontier
    → DistinctIds (push_new seen cs frontier)
unfolding push_new num_mem has_task
push_new-DistinctIds seen [] frontier dc apart d = d
push_new-DistinctIds seen (t ∷ cs) frontier dc apart d = elim (Bool-cases (num_mem t.id seen)) [
  | inl old ↦
      rw (push_new, old)
        (push_new-DistinctIds seen cs frontier dc.1 (λ j h n. apart j (ground (arith, h)) n) d)
  | inr new ↦
      rw (push_new, new)
        (push_new-DistinctIds seen cs (t.id ∷ frontier) dc.1
          (λ j h n. ground (arith, apart j (ground (arith, h)) n, h, dc.0, ==_iff j t.id))
          (apart t.id (ground (arith, ==_iff t.id t.id)) new, d))
]

pub has_task-children :
    (k j : ℕ) (ts : List Task) → has_task j (children k ts) ≡ true → has_task j ts ≡ true
unfolding has_task children
has_task-children k j [] h = h
has_task-children k j (t ∷ ts) h = ground (arith, h, has_task-children k j ts)

pub DistinctTasks-children :
    (k : ℕ) (ts : List Task) → DistinctTasks ts → DistinctTasks (children k ts)
unfolding has_task children
DistinctTasks-children k [] d = tt
DistinctTasks-children k (t ∷ ts) d = elim (Bool-cases (is_child k t)) [
  | inl e ↦
      rw (children, e)
        (ground (arith, d.0, has_task-children k t.id ts), DistinctTasks-children k ts d.1)
  | inr e ↦ rw (children, e) (DistinctTasks-children k ts d.1)
]

pub find_task-has_task :
    (j : ℕ) (ts : List Task)
    → has_task j ts ≡ true
    → (t : Task) × (find_task j ts ≡ some t) × (t.id ≡ j)
unfolding has_task find_task
find_task-has_task j [] h = absurd (ground (arith, h))
find_task-has_task j (t ∷ ts) h = elim (Bool-cases (t.id == j)) [
  | inl e ↦ (t, rw (find_task, e) refl, ground (arith, e, ==_iff t.id j))
  | inr e ↦
      let (u, found, same) = find_task-has_task j ts (ground (arith, h, e)) in
      (u, rw (find_task, e) found, same)
]

find_task-absent : (j : ℕ) (ts : List Task) → has_task j ts ≡ false → find_task j ts ≡ none
unfolding has_task find_task
find_task-absent j [] h = refl
find_task-absent j (t ∷ ts) h = ground (arith, h, find_task-absent j ts)

-- The row of a child's identifier is the child.
pub children-is_child :
    (k j : ℕ) (ts : List Task) {t : Task}
    → DistinctTasks ts
    → has_task j (children k ts) ≡ true
    → find_task j ts ≡ some t
    → is_child k t ≡ true
unfolding has_task children find_task
children-is_child k j [] d h f = absurd (ground (arith, h))
children-is_child k j (u ∷ ts) {t = t} d h f = elim (Bool-cases (u.id == j)) [
  | inl e ↦
      let same : u ≡ t = ground (arith, f, e) in
      let only : is_child k u ≡ true =
        ground (arith, h, e, d.0, has_task-children k j ts, ==_iff u.id j) in
      subst (λ x. is_child k x ≡ true) same only
  | inr e ↦ children-is_child k j ts {t = t} d.1 (ground (arith, h, e)) (ground (arith, f, e))
]

-- A row that is a child is among the children.
pub In-children :
    (k : ℕ) (ts : List Task) (t : Task)
    → find_task t.id ts ≡ some t
    → is_child k t ≡ true
    → (has_task t.id (children k ts) ≡ true) × In t (children k ts)
unfolding has_task children find_task
In-children k [] t f c = absurd (ground (arith, f))
In-children k (u ∷ ts) t f c = elim (Bool-cases (u.id == t.id)) [
  | inl e ↦
      let same : u ≡ t = ground (arith, f, e) in
      let own : is_child k u ≡ true = subst (λ x. is_child k x ≡ true) (sym same) c in
      rw (children, own) (ground (arith, e), inl (sym same))
  | inr e ↦
      let rest = In-children k ts t (ground (arith, f, e)) c in
      elim (Bool-cases (is_child k u)) [
        | inl i ↦ rw (children, i) (ground (arith, rest.0), inr rest.1)
        | inr i ↦ rw (children, i) rest
      ]
]
