-- ===== src/Terminal/Approval/Prune.antt =====
-- What `_prune_locked` drops and keeps.
use astra_ai_agent.Prelude.{
  ℕ, ◌≤◌, ◌≡◌, ◌≢◌, ◌⊎◌, inl, inr, refl, Bool, true, false, ◌||◌, Bool-cases, List, [], ◌∷◌, ◌++◌,
  String, eq_iff, ltb, length, length-append, arith,
}
use astra_ai_agent.Terminal.Approval.{Manager, mem, remove, remove_all, waits, prune_order, prune}

mem-append : (k : String) (a b : List String) → mem k (a ++ b) ≡ (mem k a || mem k b)
unfolding mem
mem-append k [] b = refl
mem-append k (j ∷ a) b = ground (arith, mem-append k a b)

module _ (limit : ℕ) (waiting : String → Bool) where
  keeps_order :
      (k : String) (ks : List String)
      → waiting k ≡ true
      → mem k (prune_order limit waiting ks).0 ≡ mem k ks
  unfolding prune_order mem
  keeps_order k [] w = refl
  keeps_order k (j ∷ ks) w =
      ground (arith, keeps_order k ks w, mem-append k ks (j ∷ []), eq_iff j k)

  drops_idle :
      (k : String) (ks : List String)
      → waiting k ≡ true
      → mem k (prune_order limit waiting ks).1 ≡ false
  unfolding prune_order mem
  drops_idle k [] w = refl
  drops_idle k (j ∷ ks) w = ground (arith, drops_idle k ks w, eq_iff j k)

  -- Afterwards the order is within the limit, or a request that still waits ends it.
  bounded_order :
      (ks : List String)
      → (length (prune_order limit waiting ks).0 ≤ limit)
        ⊎ ((k : String) × (waiting k ≡ true) × (mem k (prune_order limit waiting ks).0 ≡ true))
  unfolding prune_order mem
  bounded_order [] = inl (omega arith)
  bounded_order (j ∷ ks) = elim (Bool-cases (ltb limit (length (j ∷ ks)))) [
    | inr small ↦ inl (ground arith)
    | inl large ↦ elim (Bool-cases (waiting j)) [
      | inl w ↦ inr (j, w, ground (arith, mem-append j ks (j ∷ []), eq_iff j j))
      | inr w ↦ rw (large, w) (bounded_order ks)
    ]
  ]

  all_waiting :
      (ks : List String)
      → ((k : String) → mem k ks ≡ true → waiting k ≡ true)
      → length (prune_order limit waiting ks).0 ≡ length ks
  unfolding prune_order mem
  all_waiting [] all = refl
  all_waiting (j ∷ ks) all =
      let here = all j (ground (arith, eq_iff j j)) in ground (arith, length-append ks (j ∷ []))

mem-remove_other : (k j : String) (ks : List String) → j ≢ k → mem k (remove j ks) ≡ mem k ks
unfolding mem remove
mem-remove_other k j [] ne = refl
mem-remove_other k j (i ∷ ks) ne =
    ground (arith, eq_iff i j, eq_iff i k, mem-remove_other k j ks ne)

mem-remove_all :
    (k : String) (drop ks : List String)
    → mem k drop ≡ false
    → mem k (remove_all drop ks) ≡ mem k ks
unfolding mem remove_all
mem-remove_all k [] ks h = refl
mem-remove_all k (j ∷ drop) ks h =
    let ne : j ≢ k = λ e. ground (arith, eq_iff j k) in
    ground (arith, mem-remove_all k drop (remove j ks), mem-remove_other k j ks ne)

-- Pruning keeps every request that is still waiting for the user, in the dictionary and in the
-- order, and leaves an order within the limit or one in which a request waits.
pub prune-waits :
    (now : ℕ) (m : Manager)
    → ((k : String)
        → waits now m k ≡ true
        → (mem k (prune now m).records ≡ mem k m.records)
          × (mem k (prune now m).order ≡ mem k m.order))
      × ((length (prune now m).order ≤ m.max_records)
          ⊎ ((k : String) × (waits now m k ≡ true) × (mem k (prune now m).order ≡ true)))
unfolding prune
prune-waits now m = (
  (λ k w. (
    mem-remove_all k _ m.records (drops_idle m.max_records (waits now m) k m.order w),
    keeps_order m.max_records (waits now m) k m.order w,
  )),
  bounded_order m.max_records (waits now m) m.order,
)

-- While every request waits, pruning shortens nothing, so the order is not bounded by the limit.
pub prune-unbounded :
    (now : ℕ) (m : Manager)
    → ((k : String) → mem k m.order ≡ true → waits now m k ≡ true)
    → length (prune now m).order ≡ length m.order
unfolding prune
prune-unbounded now m all = all_waiting m.max_records (waits now m) m.order all
