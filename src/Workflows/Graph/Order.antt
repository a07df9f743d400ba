-- ===== src/Workflows/Graph/Order.antt =====
-- What `_topo` emits: each step behind its dependencies and once, and no step that could still be
-- emitted is left.
use astra_ai_agent.Prelude.{
  ℕ, zero, suc, ◌+◌, ◌<◌, ◌≤◌, ◌≡◌, ◌⊎◌, refl, sym, Bool-cases, true, false, inl, inr, List, [],
  ◌∷◌, ◌++◌, ltb, length, length-append, arith,
}
use astra_ai_agent.Prelude.Text.{Text, text_eq_iff, text_mem}
use astra_ai_agent.Workflows.Graph.{
  Node, ids, known_deps, deps_of, all_in, is_ready, pass, rounds, topo,
}
use astra_ai_agent.Workflows.Graph.Sets.{Within, Distinct, mem-snoc, Within-refl}

-- The identifiers, the last step's first.
abbrev pub backwards : List Node → List Text
backwards [] = []
backwards (s ∷ ss) = backwards ss ++ s.id ∷ []

backwards-snoc : (ss : List Node) (s : Node) → backwards (ss ++ s ∷ []) ≡ s.id ∷ backwards ss
backwards-snoc [] s = refl
backwards-snoc (x ∷ ss) s = rw (backwards-snoc ss s)

pub mem-backwards : (k : Text) (ss : List Node) → text_mem k (backwards ss) ≡ text_mem k (ids ss)
unfolding text_mem
mem-backwards k [] = refl
mem-backwards k (s ∷ ss) = ground (arith, mem-snoc k s.id (backwards ss), mem-backwards k ss)

abbrev pub All : (Node → Type 0) → List Node → Type 0
All p [] = Unit
All p (s ∷ ss) = p s × All p ss

pub All-snoc :
    (p : Node → Type 0) (ss : List Node) (s : Node) → All p ss → p s → All p (ss ++ s ∷ [])
All-snoc p [] s h e = (e, tt)
All-snoc p (x ∷ ss) s h e = (h.0, All-snoc p ss s h.1 e)

-- A list of known texts, each before (in the list: ahead of) those that it depends on, once.
abbrev pub Closed : List Text → (Text → List Text) → List Text → Type 0
Closed known deps [] = Unit
Closed known deps (k ∷ ks) = (text_mem k known ≡ true) × Within (deps k) ks × Closed known deps ks

all_in-Within : (done ds : List Text) → all_in done ds ≡ true → Within ds done
unfolding all_in
all_in-Within done [] h = tt
all_in-Within done (d ∷ ds) h = (ground arith, all_in-Within done ds (ground arith))

pub Within-all_in : (done ds : List Text) → Within ds done → all_in done ds ≡ true
unfolding all_in
Within-all_in done [] h = refl
Within-all_in done (d ∷ ds) h = ground (arith, Within-all_in done ds h.1, h.0)

module _ (known : List Text) (deps : Text → List Text) where
  -- The dependencies that `deps` gives for a step are its own.
  abbrev pub Agrees : Node → Type 0
  Agrees s = deps s.id ≡ known_deps known s.depends_on

  -- What is true of `ordered` at any time.
  abbrev pub Sorted : List Node → Type 0
  Sorted ordered =
      Closed known deps (backwards ordered) × Distinct (backwards ordered) × All Agrees ordered

  Within-backwards :
      (ds : List Text) (ss : List Node) → Within ds (ids ss) → Within ds (backwards ss)
  Within-backwards [] ss h = tt
  Within-backwards (d ∷ ds) ss h = (rw (mem-backwards d ss) h.0, Within-backwards ds ss h.1)

  Sorted-snoc :
      (ordered : List Node) (s : Node)
      → Agrees s
      → text_mem s.id known ≡ true
      → is_ready known (ids ordered) s ≡ true
      → Sorted ordered
      → Sorted (ordered ++ s ∷ [])
  unfolding is_ready
  Sorted-snoc ordered s agrees m ready (closed, distinct, all) =
      let within =
        Within-backwards (known_deps known s.depends_on) ordered
          (all_in-Within (ids ordered) (known_deps known s.depends_on) (ground arith)) in
      (
        rw (backwards-snoc ordered s, agrees) (m, within, closed),
        rw (backwards-snoc ordered s) (ground (arith, mem-backwards s.id ordered), distinct),
        All-snoc Agrees ordered s all agrees,
      )

  pass-Sorted :
      (ss ordered : List Node)
      → All Agrees ss
      → Within (ids ss) known
      → Sorted ordered
      → Sorted (pass known ss ordered)
  unfolding pass
  pass-Sorted [] ordered agrees within h = h
  pass-Sorted (s ∷ ss) ordered agrees within h =
      elim (Bool-cases (is_ready known (ids ordered) s)) [
        | inl e ↦
            rw (pass, e)
              (pass-Sorted ss (ordered ++ s ∷ []) agrees.1 within.1
                (Sorted-snoc ordered s agrees.0 within.0 e h))
        | inr e ↦ rw (pass, e) (pass-Sorted ss ordered agrees.1 within.1 h)
      ]

module _ (known : List Text) where
  -- No step of the list is ready.
  abbrev pub Stuck : List Text → List Node → Type 0
  Stuck done [] = Unit
  Stuck done (s ∷ ss) = (is_ready known done s ≡ false) × Stuck done ss

  pass-length : (ss ordered : List Node) → length ordered ≤ length (pass known ss ordered)
  unfolding pass
  pass-length [] ordered = omega arith
  pass-length (s ∷ ss) ordered = elim (Bool-cases (is_ready known (ids ordered) s)) [
    | inl e ↦
        rw (pass, e)
          (omega (arith, pass-length ss (ordered ++ s ∷ []), length-append ordered (s ∷ [])))
    | inr e ↦ rw (pass, e) (pass-length ss ordered)
  ]

  -- A round that adds nothing finds no step ready, and leaves the order as it was.
  pass-Stuck :
      (ss ordered : List Node)
      → length (pass known ss ordered) ≤ length ordered
      → Stuck (ids ordered) ss × (pass known ss ordered ≡ ordered)
  unfolding pass
  pass-Stuck [] ordered le = (tt, refl)
  pass-Stuck (s ∷ ss) ordered le = elim (Bool-cases (is_ready known (ids ordered) s)) [
    | inl e ↦
        absurd (ground (arith, pass-length ss (ordered ++ s ∷ []), length-append ordered (s ∷ [])))
    | inr e ↦ let rest = pass-Stuck ss ordered (ground arith) in ((e, rest.0), rw (pass, e) rest.1)
  ]

  deps_of-later :
      (s : Node) (ss : List Node) (k : Text)
      → text_mem k (ids ss) ≡ true
      → deps_of known (s ∷ ss) k ≡ deps_of known ss k
  unfolding deps_of
  deps_of-later s ss k e = rw e

  deps_of-last :
      (s : Node) (ss : List Node) (k : Text)
      → text_mem k (ids ss) ≡ false
      → s.id ≡ k
      → deps_of known (s ∷ ss) k ≡ known_deps known s.depends_on
  unfolding deps_of
  deps_of-last s ss k e same = ground (arith, text_eq_iff s.id k)

  -- A stuck step whose dependencies are done is done.
  pub Stuck-done :
      (done : List Text) (ss : List Node) (k : Text)
      → Stuck done ss
      → text_mem k (ids ss) ≡ true
      → Within (deps_of known ss k) done
      → text_mem k done ≡ true
  unfolding is_ready text_mem
  Stuck-done done [] k stuck m h = ground arith
  Stuck-done done (s ∷ ss) k stuck m h = elim (Bool-cases (text_mem k (ids ss))) [
    | inl e ↦ Stuck-done done ss k stuck.1 e (rw (sym (deps_of-later s ss k e)) h)
    | inr e ↦
        let same : s.id ≡ k = ground (arith, text_eq_iff s.id k, text_eq_iff k s.id) in
        let within : Within (known_deps known s.depends_on) done =
          rw (sym (deps_of-last s ss k e same)) h in
        ground (arith, stuck.0, Within-all_in done (known_deps known s.depends_on) within)
  ]

  -- With distinct identifiers, each step's dependencies are found under its identifier.
  Agrees_later :
      (s : Node) (ss rest : List Node)
      → Distinct (ids (s ∷ ss))
      → All (λ x. deps_of known ss x.id ≡ known_deps known x.depends_on) rest
      → Within (ids rest) (ids ss)
      → All (λ x. deps_of known (s ∷ ss) x.id ≡ known_deps known x.depends_on) rest
  Agrees_later s ss [] d h w = tt
  Agrees_later s ss (x ∷ rest) d h w =
      (rw (deps_of-later s ss x.id w.0) h.0, Agrees_later s ss rest d h.1 w.1)

  pub deps_of-Agrees :
      (ss : List Node)
      → Distinct (ids ss)
      → All (λ x. deps_of known ss x.id ≡ known_deps known x.depends_on) ss
  deps_of-Agrees [] d = tt
  deps_of-Agrees (s ∷ ss) d = (
    deps_of-last s ss s.id d.0 refl,
    Agrees_later s ss ss d (deps_of-Agrees ss d.1) (Within-refl (ids ss)),
  )

-- Where the rounds end: every step is emitted, or none is ready.
rounds-end :
    (n : ℕ) (steps ordered : List Node)
    → length steps < n + length ordered
    → (length steps ≤ length (rounds n steps ordered))
      ⊎ Stuck (ids steps) (ids (rounds n steps ordered)) steps
unfolding rounds
rounds-end zero steps ordered h = inl (omega arith)
rounds-end (suc n) steps ordered h =
    let next = pass (ids steps) steps ordered in
    elim (Bool-cases (ltb (length ordered) (length steps))) [
      | inr e ↦ rw (rounds, e) (inl (ground arith))
      | inl e ↦ elim (Bool-cases (ltb (length ordered) (length next))) [
        | inl grows ↦ rw (rounds, e, grows) (rounds-end n steps next (ground arith))
        | inr same ↦
            let stuck = pass-Stuck (ids steps) steps ordered (ground arith) in
            rw (rounds, e, same, stuck.1) (inr stuck.0)
      ]
    ]

rounds-Sorted :
    (deps : Text → List Text) (n : ℕ) (steps ordered : List Node)
    → All (Agrees (ids steps) deps) steps
    → Sorted (ids steps) deps ordered
    → Sorted (ids steps) deps (rounds n steps ordered)
unfolding rounds
rounds-Sorted deps zero steps ordered all h = h
rounds-Sorted deps (suc n) steps ordered all h =
    let next = pass (ids steps) steps ordered in
    let sorted = pass-Sorted (ids steps) deps steps ordered all (Within-refl (ids steps)) h in
    elim (Bool-cases (ltb (length ordered) (length steps))) [
      | inr e ↦ rw (rounds, e) h
      | inl e ↦ elim (Bool-cases (ltb (length ordered) (length next))) [
        | inl grows ↦ rw (rounds, e, grows) (rounds-Sorted deps n steps next all sorted)
        | inr same ↦ rw (rounds, e, same) sorted
      ]
    ]

abbrev pub deps_in : List Node → Text → List Text
deps_in steps = deps_of (ids steps) steps

pub topo-Sorted :
    (steps : List Node) → Distinct (ids steps) → Sorted (ids steps) (deps_in steps) (topo steps)
unfolding topo
topo-Sorted steps d =
    rounds-Sorted (deps_in steps) (suc (length steps)) steps [] (deps_of-Agrees (ids steps) steps d)
      (tt, tt, tt)

pub topo-end :
    (steps : List Node)
    → (length steps ≤ length (topo steps)) ⊎ Stuck (ids steps) (ids (topo steps)) steps
unfolding topo
topo-end steps = rounds-end (suc (length steps)) steps [] (omega arith)
