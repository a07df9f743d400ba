-- ===== src/Workflows/Graph/Emitted.antt =====
-- The order that `_topo` emits, as lists of identifiers.
use mathlib.Core.Path.{subst}
use mathlib.Core.List.{append_assoc, append-nil}
use astra_ai_agent.Prelude.{◌≡◌, refl, sym, ◌∙◌, true, false, List, [], ◌∷◌, ◌++◌, arith}
use astra_ai_agent.Prelude.Text.{Text, text_eq_iff, text_mem}
use astra_ai_agent.Workflows.Graph.{Node, ids, known_deps, topo}
use astra_ai_agent.Workflows.Graph.Sets.{Within, Distinct, mem-snoc}
use astra_ai_agent.Workflows.Graph.Order.{
  Closed, All, Agrees, Sorted, backwards, mem-backwards, deps_in, topo-Sorted,
}
use astra_ai_agent.Workflows.Graph.Acyclic.{Closed-Within}

Distinct-unsnoc :
    (xs : List Text) (x : Text) → Distinct (xs ++ x ∷ []) → Distinct xs × (text_mem x xs ≡ false)
unfolding text_mem
Distinct-unsnoc [] x d = (tt, refl)
Distinct-unsnoc (y ∷ xs) x d =
    let rest = Distinct-unsnoc xs x d.1 in
    (
      (ground (arith, d.0, mem-snoc y x xs), rest.0),
      ground (arith, d.0, mem-snoc y x xs, rest.1, text_eq_iff x y, text_eq_iff y x),
    )

Distinct-backwards : (ss : List Node) → Distinct (backwards ss) → Distinct (ids ss)
Distinct-backwards [] d = tt
Distinct-backwards (s ∷ ss) d =
    let rest = Distinct-unsnoc (backwards ss) s.id d in
    (ground (arith, rest.1, mem-backwards s.id ss), Distinct-backwards ss rest.0)

Within-backwards_left :
    (ss : List Node) (ys : List Text) → Within (backwards ss) ys → Within (ids ss) ys
Within-backwards_left [] ys h = tt
Within-backwards_left (s ∷ ss) ys h =
    let rest = unsnoc (backwards ss) s.id ys h in (rest.1, Within-backwards_left ss ys rest.0)
  where
    unsnoc :
        (xs : List Text) (x : Text) (zs : List Text)
        → Within (xs ++ x ∷ []) zs
        → Within xs zs × (text_mem x zs ≡ true)
    unsnoc [] x zs w = (tt, w.0)
    unsnoc (y ∷ xs) x zs w = let rest = unsnoc xs x zs w.1 in ((w.0, rest.0), rest.1)

Within-ids : (ds : List Text) (ss : List Node) → Within ds (backwards ss) → Within ds (ids ss)
Within-ids [] ss h = tt
Within-ids (d ∷ ds) ss h = (rw (sym (mem-backwards d ss)) h.0, Within-ids ds ss h.1)

pub topo-Distinct : (steps : List Node) → Distinct (ids steps) → Distinct (ids (topo steps))
topo-Distinct steps d = Distinct-backwards (topo steps) (topo-Sorted steps d).1

pub topo-Within : (steps : List Node) → Distinct (ids steps) → Within (ids (topo steps)) (ids steps)
topo-Within steps d =
    Within-backwards_left (topo steps) (ids steps)
      (Closed-Within (ids steps) (deps_in steps) (backwards (topo steps)) (topo-Sorted steps d).0)

backwards-append : (a b : List Node) → backwards (a ++ b) ≡ backwards b ++ backwards a
backwards-append [] b = sym (append-nil (backwards b))
backwards-append (s ∷ a) b =
    rw (backwards-append a b) (append_assoc (backwards b) (backwards a) (s.id ∷ []))

Closed-suffix :
    (known : List Text) (deps : Text → List Text) (a b : List Text)
    → Closed known deps (a ++ b)
    → Closed known deps b
Closed-suffix known deps [] b c = c
Closed-suffix known deps (k ∷ a) b c = Closed-suffix known deps a b c.2

All-middle : (p : Node → Type 0) (a b : List Node) (s : Node) → All p (a ++ (s ∷ b)) → p s
All-middle p [] b s h = h.0
All-middle p (x ∷ a) b s h = All-middle p a b s h.1

Sorted-middle :
    (known : List Text) (deps : Text → List Text) (a b : List Node) (s : Node)
    → Sorted known deps (a ++ (s ∷ b))
    → Within (known_deps known s.depends_on) (ids a)
Sorted-middle known deps a b s h =
    let here : Closed known deps (s.id ∷ backwards a) =
      Closed-suffix known deps (backwards b) (s.id ∷ backwards a) (
        subst (Closed known deps)
          (backwards-append a (s ∷ b) ∙ append_assoc (backwards b) (s.id ∷ []) (backwards a))
          h.0) in
    Within-ids (known_deps known s.depends_on) a
      (subst (λ ds. Within ds (backwards a)) (All-middle (Agrees known deps) a b s h.2) here.1)

-- With distinct identifiers: where a step stands in the order that `_topo` emits, those of its
-- dependencies that are steps stand before it.
pub topo_order :
    (steps before after : List Node) (s : Node)
    → Distinct (ids steps)
    → topo steps ≡ before ++ (s ∷ after)
    → Within (known_deps (ids steps) s.depends_on) (ids before)
topo_order steps before after s d e =
    Sorted-middle (ids steps) (deps_in steps) before after s
      (subst (Sorted (ids steps) (deps_in steps)) e (topo-Sorted steps d))
