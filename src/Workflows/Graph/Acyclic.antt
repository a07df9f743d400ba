-- ===== src/Workflows/Graph/Acyclic.antt =====
-- `check_cycles` and `_topo` agree: the search finds no cycle just when the rounds emit every step.
use astra_ai_agent.Prelude.{
  ℕ, zero, suc, ◌≤◌, ◌≡◌, refl, Bool-cases, true, false, not, inl, inr, List, [], ◌∷◌, ◌++◌, ltb,
  length, length-append, arith,
}
use astra_ai_agent.Prelude.Text.{Text, text_eq, text_eq_iff, text_mem}
use astra_ai_agent.Workflows.Graph.{
  Node, ids, known_deps, deps_of, Visit, finished, cycle, out_of_fuel, leave, visit, check_cycles,
  topo,
}
use astra_ai_agent.Workflows.Graph.Sets.{
  Within, Distinct, Within-refl, Within-trans, Distinct-length, Distinct-full,
}
use astra_ai_agent.Workflows.Graph.Order.{
  Closed, backwards, Stuck, Stuck-done, deps_in, topo-Sorted, topo-end,
}
use astra_ai_agent.Workflows.Graph.Walk.{
  is_over, is_finished, each-holds, Bounded, visit-is_over, Visited, search-Closed,
}

pub length-ids : (ss : List Node) → length (ids ss) ≡ length ss
length-ids [] = refl
length-ids (s ∷ ss) = omega (arith, length-ids ss)

length-backwards : (ss : List Node) → length (backwards ss) ≡ length ss
length-backwards [] = refl
length-backwards (s ∷ ss) =
    omega (arith, length-append (backwards ss) (s.id ∷ []), length-backwards ss)

known_deps-Within : (known ds : List Text) → Within (known_deps known ds) known
unfolding known_deps
known_deps-Within known [] = tt
known_deps-Within known (d ∷ ds) = elim (Bool-cases (text_mem d known)) [
  | inl e ↦ rw (known_deps, e) (e, known_deps-Within known ds)
  | inr e ↦ rw (known_deps, e) (known_deps-Within known ds)
]

deps_of-Bounded : (known : List Text) (ss : List Node) → Bounded known (deps_of known ss)
unfolding deps_of
deps_of-Bounded known [] k = tt
deps_of-Bounded known (s ∷ ss) k = elim (Bool-cases (text_mem k (ids ss))) [
  | inl e ↦ rw (deps_of, e) (deps_of-Bounded known ss k)
  | inr e ↦ elim (Bool-cases (text_eq s.id k)) [
    | inl i ↦ rw (deps_of, e, i) (known_deps-Within known s.depends_on)
    | inr i ↦ rw (deps_of, e, i) tt
  ]
]

-- No text of the path is in the order.
abbrev Apart : List Text → List Text → Type 0
Apart [] order = Unit
Apart (p ∷ path) order = (text_mem p order ≡ false) × Apart path order

Apart-mem :
    (path order : List Text) (k : Text)
    → Apart path order
    → text_mem k order ≡ true
    → text_mem k path ≡ false
unfolding text_mem
Apart-mem [] order k h m = refl
Apart-mem (p ∷ path) order k h m = elim (Bool-cases (text_eq k p)) [
  | inl e ↦ absurd (ground (arith, h.0, m, text_eq_iff k p))
  | inr e ↦ ground (arith, Apart-mem path order k h.1 m)
]

Apart-tail : (path order : List Text) (k : Text) → Apart path (k ∷ order) → Apart path order
unfolding text_mem
Apart-tail [] order k h = tt
Apart-tail (p ∷ path) order k h = (ground arith, Apart-tail path order k h.1)

Apart-snoc :
    (path order : List Text) (k : Text)
    → Apart path order
    → text_mem k order ≡ false
    → Apart (path ++ k ∷ []) order
Apart-snoc [] order k h e = (e, tt)
Apart-snoc (p ∷ path) order k h e = (h.0, Apart-snoc path order k h.1 e)

leave-is_finished : (sid : Text) (o : Visit) → is_finished (leave sid o) ≡ is_finished o
unfolding leave is_finished
leave-is_finished sid (finished b) = refl
leave-is_finished sid (cycle p) = refl
leave-is_finished sid out_of_fuel = refl

-- The visit of a step of a closed order finishes.
visit-is_finished :
    (known : List Text) (deps : Text → List Text) (order : List Text)
    → Closed known deps order
    → Distinct order
    → (n : ℕ) (path black : List Text) (sid : Text) → Apart path order
    → length order ≤ n
    → text_mem sid order ≡ true
    → is_finished (visit deps n path black sid) ≡ true
unfolding visit is_finished text_mem
visit-is_finished known deps [] c d n path black sid a le m = ground arith
visit-is_finished known deps (k ∷ order) c d zero path black sid a le m = absurd (omega (arith, le))
visit-is_finished known deps (k ∷ order) c d (suc n) path black sid a le m =
    let off = Apart-mem path (k ∷ order) sid a m in
    elim (Bool-cases (text_eq sid k)) [
      | inr ne ↦
          visit-is_finished known deps order c.2 d.1 (suc n) path black sid
            (Apart-tail path order k a) (omega (arith, le)) (ground arith)
      | inl same ↦
          let e = (text_eq_iff sid k).0 same in
          elim (Bool-cases (text_mem sid black)) [
            | inl b ↦ rw (visit, off, b) refl
            | inr b ↦
                rw (visit, off, b, leave-is_finished)
                  (each-holds is_finished (visit deps n (path ++ sid ∷ [])) order (λ b'. refl)
                    (λ bl x mx.
                      visit-is_finished known deps order c.2 d.1 n (path ++ sid ∷ []) bl x
                        (Apart-snoc path order sid (Apart-tail path order k a) (rw e d.0))
                        (omega (arith, le)) mx)
                    black (deps sid) (rw e c.1))
          ]
    ]

-- The search of `check_cycles` always comes to an end.
pub check_cycles_ends : (steps : List Node) → is_over (check_cycles steps) ≡ true
unfolding check_cycles is_over
check_cycles_ends steps =
    let known = ids steps in
    each-holds is_over (visit (deps_of known steps) (suc (length steps)) []) known (λ b. refl)
      (λ bl k m.
        visit-is_over known (deps_of known steps) (deps_of-Bounded known steps) (suc (length steps))
          [] bl k tt tt (omega (arith, length-ids steps)) m)
      [] known (Within-refl known)

Closed-done :
    (steps : List Node) (done black : List Text)
    → Stuck (ids steps) done steps
    → Closed (ids steps) (deps_in steps) black
    → Within black done
Closed-done steps done [] stuck c = tt
Closed-done steps done (k ∷ black) stuck c =
    let rest = Closed-done steps done black stuck c.2 in
    (
      Stuck-done (ids steps) done steps k stuck c.0
          (Within-trans (deps_in steps k) black done c.1 rest),
      rest,
    )

finished-topo :
    (steps : List Node) (v : Visit)
    → Distinct (ids steps)
    → Visited (ids steps) (deps_in steps) [] (ids steps) v
    → is_finished v ≡ true
    → length steps ≤ length (topo steps)
unfolding is_finished
finished-topo steps (finished b) d (c, w, m) e = elim (topo-end steps) [
  | inl le ↦ le
  | inr stuck ↦
      let done = ids (topo steps) in
      let all = Within-trans (ids steps) b done m (Closed-done steps done b stuck c) in
      omega
        (arith, Distinct-length (ids steps) done d all, length-ids steps, length-ids (topo steps))
]
finished-topo steps (cycle p) d v e = ground arith
finished-topo steps out_of_fuel d v e = ground arith

pub Closed-Within :
    (known : List Text) (deps : Text → List Text) (ks : List Text)
    → Closed known deps ks
    → Within ks known
Closed-Within known deps [] c = tt
Closed-Within known deps (k ∷ ks) c = (c.0, Closed-Within known deps ks c.2)

topo-finished :
    (steps : List Node)
    → Distinct (ids steps)
    → length steps ≤ length (topo steps)
    → is_finished (check_cycles steps) ≡ true
unfolding check_cycles is_finished
topo-finished steps d le =
    let known = ids steps in
    let order = backwards (topo steps) in
    let sorted = topo-Sorted steps d in
    let within = Closed-Within known (deps_in steps) order sorted.0 in
    let most = Distinct-length order known sorted.1 within in
    each-holds is_finished (visit (deps_in steps) (suc (length steps)) []) known (λ b. refl)
      (λ bl k m.
        visit-is_finished known (deps_in steps) order sorted.0 sorted.1 (suc (length steps)) [] bl k
          tt (omega (arith, most, length-ids steps))
          (Distinct-full order known k sorted.1 within
            (omega (arith, le, length-ids steps, length-backwards (topo steps))) m))
      [] known (Within-refl known)

-- For steps with distinct identifiers: `check_cycles` accepts them just when `_topo` emits as many
-- steps as it was given, so that `run` does not refuse them.
pub check_cycles-topo :
    (steps : List Node)
    → Distinct (ids steps)
    → is_finished (check_cycles steps) ≡ not (ltb (length (topo steps)) (length steps))
unfolding check_cycles
check_cycles-topo steps d = ground (
  arith,
  finished-topo steps (check_cycles steps) d (
      search-Closed (ids steps) (deps_in steps) (deps_of-Bounded (ids steps) steps)
        (suc (length steps)) (ids steps) (Within-refl (ids steps))),
  topo-finished steps d,
)
