-- ===== src/Core/Tasks/Subtree/Rounds.antt =====
-- The rounds of the walk over a subtree: what holds between them, and what was seen at the end.
use mathlib.Core.Path.{subst}
use astra_ai_agent.Prelude.{
  ℕ, zero, suc, ◌+◌, ◌<◌, ◌≤◌, ◌≡◌, ◌⊎◌, refl, ap, Bool-cases, true, false, inl, inr, List, [], ◌∷◌,
  ◌++◌, Option-cases, some, ◌==◌, ==_iff, length, arith, if◌then◌else◌,
}
use astra_ai_agent.Core.Tasks.{Task, find_task}
use astra_ai_agent.Core.Tasks.Subtree.{num_mem, is_child, children, push_new, walk, subtree}
use astra_ai_agent.Core.Tasks.Subtree.Walk.{
  parent_in, waiting, waiting-children, length-push_new, mem-push_new, push_new-child, has_task,
  DistinctIds, DistinctTasks, In, In-append, push_new-source, push_new-DistinctIds,
  has_task-children, DistinctTasks-children, find_task-has_task, children-is_child, In-children,
}

abbrev tail : List ℕ → List ℕ
tail [] = []
tail (k ∷ ks) = ks

mem-tail : (ks : List ℕ) (j : ℕ) → num_mem j (tail ks) ≡ true → num_mem j ks ≡ true
unfolding num_mem
mem-tail [] j h = h
mem-tail (k ∷ ks) j h = ground (arith, h)

nobody : (t : Task) → parent_in [] t ≡ true → ⊥
unfolding parent_in num_mem
nobody t h = elim (Option-cases t.parent_task_id) [
  | inl n ↦ ground (arith, n, h)
  | inr (p, e) ↦ ground (arith, e, h)
]

waiting_most : (ts : List Task) → waiting [] ts ≤ length ts
unfolding waiting
waiting_most [] = omega arith
waiting_most (t ∷ ts) = ground (arith, waiting_most ts)

-- The parents of a task: seen before, or the one just seen.
parent_in-cons :
    (k : ℕ) (seen : List ℕ) (t : Task)
    → parent_in (k ∷ seen) t ≡ (if is_child k t then true else parent_in seen t)
unfolding parent_in is_child num_mem
parent_in-cons k seen t = elim (Option-cases t.parent_task_id) [
  | inl n ↦ ground (arith, n)
  | inr (p, e) ↦ ground (arith, e)
]

parent_in-child :
    (k : ℕ) (seen : List ℕ) (t : Task)
    → is_child k t ≡ true
    → parent_in seen t ≡ true
    → num_mem k seen ≡ true
unfolding parent_in is_child
parent_in-child k seen t c h = elim (Option-cases t.parent_task_id) [
  | inl n ↦ absurd (ground (arith, n, c))
  | inr (p, e) ↦
      let same : p ≡ k = ground (arith, e, c, ==_iff p k) in
      subst (λ i. num_mem i seen ≡ true) same (ground (arith, e, h))
]

module _ (ts : List Task) (distinct : DistinctTasks ts) (root : ℕ) where
  -- A task whose parent was seen was seen or is on the frontier, and it is among the results.
  abbrev Known : List ℕ → List ℕ → List Task → Type 0
  Known frontier seen out =
      (t : Task)
      → find_task t.id ts ≡ some t
      → parent_in seen t ≡ true
      → ((num_mem t.id seen ≡ true) ⊎ (num_mem t.id frontier ≡ true)) × In t out

  -- What holds between two rounds.
  abbrev Between : List ℕ → List ℕ → List Task → Type 0
  Between frontier seen out =
      DistinctIds frontier
      × ((j : ℕ) → num_mem j frontier ≡ true → num_mem j seen ≡ false)
      × ((j : ℕ) (t : Task)
          → num_mem j (tail frontier) ≡ true
          → find_task j ts ≡ some t
          → parent_in seen t ≡ true)
      × Known frontier seen out
      × ((num_mem root seen ≡ true) ⊎ (num_mem root frontier ≡ true))

  -- What was seen in the end: the root, and each task with a parent that was seen, which is among
  -- the results.
  abbrev pub Found : List Task → Type 0
  Found out =
      (seen : List ℕ) × (num_mem root seen ≡ true)
      × ((t : Task)
          → find_task t.id ts ≡ some t
          → parent_in seen t ≡ true
          → (num_mem t.id seen ≡ true) × In t out)

  module _ (k : ℕ) (frontier seen : List ℕ) (out : List Task)
      (h : Between (k ∷ frontier) seen out) where
    unseen : num_mem k seen ≡ false
    unfolding num_mem
    unseen = h.1 k (ground (arith, ==_iff k k))

    off_frontier :
        (j : ℕ)
        → has_task j (children k ts) ≡ true
        → num_mem j (k ∷ seen) ≡ false
        → num_mem j frontier ≡ false
    off_frontier j c n = elim (Bool-cases (num_mem j frontier)) [
      | inr e ↦ e
      | inl e ↦
          let (t, found, same) = find_task-has_task j ts (has_task-children k j ts c) in
          let child = children-is_child k j ts {t = t} distinct c found in
          absurd (ground (arith, unseen, parent_in-child k seen t child (h.2 j t e found)))
    ]

    next : List ℕ
    next = push_new (k ∷ seen) (children k ts) frontier

    next-apart : (j : ℕ) → num_mem j next ≡ true → num_mem j (k ∷ seen) ≡ false
    unfolding next num_mem
    next-apart j m = elim (push_new-source (k ∷ seen) (children k ts) frontier j m) [
      | inl old ↦ ground (
        arith,
        h.1 j (ground (arith, old)),
        h.0.0,
        old,
        ==_iff j k,
        ap (λ i. num_mem i frontier) {x = j} {y = k},
      )
      | inr (c, n) ↦ n
    ]

    next-parent :
        (j : ℕ) (t : Task)
        → num_mem j next ≡ true
        → find_task j ts ≡ some t
        → parent_in (k ∷ seen) t ≡ true
    unfolding next
    next-parent j t m f = elim (push_new-source (k ∷ seen) (children k ts) frontier j m) [
      | inl old ↦ ground (arith, parent_in-cons k seen t, h.2 j t old f)
      | inr (c, n) ↦
          ground (arith, parent_in-cons k seen t, children-is_child k j ts {t = t} distinct c f)
    ]

    next-Known : Known next (k ∷ seen) (out ++ children k ts)
    unfolding next num_mem
    next-Known t f p = elim (Bool-cases (is_child k t)) [
      | inl c ↦
          let (has, within) = In-children k ts t f c in
          (
            push_new-child (k ∷ seen) (children k ts) frontier t.id has,
            In-append t out (children k ts) (inr within),
          )
      | inr c ↦
          let old = h.3 t f (ground (arith, p, c, parent_in-cons k seen t)) in
          (
            elim old.0 [
              | inl s ↦ inl (ground (arith, s))
              | inr m ↦ elim (Bool-cases (t.id == k)) [
                | inl e ↦ inl (ground (arith, e))
                | inr e ↦
                    inr
                      (mem-push_new (k ∷ seen) (children k ts) frontier t.id (ground (arith, m, e)))
              ]
            ],
            In-append t out (children k ts) (inl old.1),
          )
    ]

    next-Between : Between next (k ∷ seen) (out ++ children k ts)
    unfolding next num_mem
    next-Between = (
      push_new-DistinctIds (k ∷ seen) (children k ts) frontier
          (DistinctTasks-children k ts distinct) off_frontier h.0.1,
      next-apart,
      λ j t m f. next-parent j t (mem-tail next j m) f,
      next-Known,
      elim h.4 [
        | inl s ↦ inl (ground (arith, s))
        | inr m ↦ elim (Bool-cases (root == k)) [
          | inl e ↦ inl (ground (arith, e))
          | inr e ↦
              inr (mem-push_new (k ∷ seen) (children k ts) frontier root (ground (arith, m, e)))
        ]
      ],
    )

  walk-Found :
      (n : ℕ) (frontier seen : List ℕ) (out : List Task)
      → Between frontier seen out
      → length frontier + waiting seen ts < n
      → Found (walk n ts frontier seen out)
  unfolding walk next num_mem
  walk-Found zero frontier seen out h lt = absurd (omega (arith, lt))
  walk-Found (suc n) [] seen out h lt = (
    seen,
    elim h.4 [ inl s ↦ s | inr m ↦ absurd (ground (arith, m)) ],
    λ t f p.
        let old = h.3 t f p in
        (elim old.0 [ inl s ↦ s | inr m ↦ absurd (ground (arith, m)) ], old.1),
  )
  walk-Found (suc n) (k ∷ frontier) seen out h lt =
      walk-Found n (next k frontier seen out h) (k ∷ seen) (out ++ children k ts)
        (next-Between k frontier seen out h)
        (omega (
          arith,
          lt,
          waiting-children k seen ts (unseen k frontier seen out h),
          length-push_new (k ∷ seen) (children k ts) frontier,
        ))

  pub subtree-Found : Found (subtree root ts)
  unfolding subtree num_mem parent_in
  subtree-Found =
      walk-Found (suc (suc (length ts))) (root ∷ []) [] []
        (
          (refl, tt),
          λ j m. refl,
          λ j t m f. absurd (ground (arith, m)),
          λ t f p. absurd (nobody t p),
          inr (ground (arith, ==_iff root root)),
        )
        (omega (arith, waiting_most ts))
