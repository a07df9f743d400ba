-- ===== src/Workflows/Graph.antt =====
-- The dependencies between steps (`check_cycles` and `_topo`), on the identifiers of the steps.
pub mod Sets
pub mod Order
pub mod Walk
pub mod Acyclic
pub mod Emitted
use astra_ai_agent.Prelude.{
  ℕ, zero, suc, Bool, true, false, ◌&&◌, not, List, [], ◌∷◌, ◌++◌, map, Option, none, some, ltb,
  leb, ◌==◌, length, if◌then◌else◌,
}
use astra_ai_agent.Prelude.Text.{Text, text_eq, text_mem}

-- What the search for a cycle sees of a step, and what the order needs.
pub record Node : Type 0 where
  pub id : Text
  pub depends_on : List Text

abbrev pub ids : List Node → List Text
ids [] = []
ids (s ∷ ss) = s.id ∷ ids ss

-- `[d for d in deps if d in ids]`
unfoldable pub known_deps : List Text → List Text → List Text
known_deps known [] = []
known_deps known (d ∷ ds) =
    let rest = known_deps known ds in if text_mem d known then d ∷ rest else rest

-- The entry of `deps` for an identifier: that of the last step with it, and `[]` for no step.
unfoldable pub deps_of : List Text → List Node → Text → List Text
unfolding known_deps
deps_of known [] k = []
deps_of known (s ∷ ss) k =
    let rest = deps_of known ss k in
    if text_mem k (ids ss)
    then rest
    else if text_eq s.id k
    then known_deps known s.depends_on
    else []

-- The end of a search: the finished steps (those whose `state` is 2), the cycle that was found, or
-- no fuel.
pub data Visit : Type 0 where
  finished : List Text → Visit
  cycle : List Text → Visit
  out_of_fuel : Visit

-- A loop of visits.
unfoldable pub each : (List Text → Text → Visit) → List Text → List Text → Visit
each f black [] = finished black
each f black (d ∷ ds) = elim (f black d) [
  | finished b ↦ each f b ds
  | cycle p ↦ cycle p
  | out_of_fuel ↦ out_of_fuel
]

unfoldable pub leave : Text → Visit → Visit
leave sid (finished b) = finished (sid ∷ b)
leave sid (cycle p) = cycle p
leave sid out_of_fuel = out_of_fuel

-- `visit`: the `state` of a step is 1 while the step is on the path, and 2 when its visit is over.
unfoldable pub visit : (Text → List Text) → ℕ → List Text → List Text → Text → Visit
unfolding each leave
visit deps zero path black sid = out_of_fuel
visit deps (suc n) path black sid = elim (text_mem sid path) [
  | true ↦ cycle (path ++ sid ∷ [])
  | false ↦ elim (text_mem sid black) [
    | true ↦ finished black
    | false ↦ leave sid (each (visit deps n (path ++ sid ∷ [])) black (deps sid))
  ]
]

-- `check_cycles`. A step that comes twice is visited twice, and the second visit returns at once.
unfoldable pub check_cycles : List Node → Visit
unfolding deps_of visit each
check_cycles steps = each (visit (deps_of (ids steps) steps) (suc (length steps)) []) [] (ids steps)

-- `all(d in done for d in deps)`
unfoldable pub all_in : List Text → List Text → Bool
all_in done [] = true
all_in done (d ∷ ds) = text_mem d done && all_in done ds

-- A step that is not done and has its dependencies done.
unfoldable pub is_ready : List Text → List Text → Node → Bool
unfolding known_deps all_in
is_ready known done s = not (text_mem s.id done) && all_in done (known_deps known s.depends_on)

-- One round of `_topo` over the steps. The set `done` holds the identifiers of `ordered`.
unfoldable pub pass : List Text → List Node → List Node → List Node
unfolding is_ready
pass known [] ordered = ordered
pass known (s ∷ ss) ordered = elim (is_ready known (ids ordered) s) [
  | true ↦ pass known ss (ordered ++ s ∷ [])
  | false ↦ pass known ss ordered
]

-- The rounds: a round that adds no step is the last one.
unfoldable pub rounds : ℕ → List Node → List Node → List Node
unfolding pass
rounds zero steps ordered = ordered
rounds (suc n) steps ordered = elim (ltb (length ordered) (length steps)) [
  | false ↦ ordered
  | true ↦ elim (ltb (length ordered) (length (pass (ids steps) steps ordered))) [
    | false ↦ pass (ids steps) steps ordered
    | true ↦ rounds n steps (pass (ids steps) steps ordered)
  ]
]

-- `_topo`: each round but the last adds a step, so that there are no more rounds than steps, and
-- one.
unfoldable pub topo : List Node → List Node
unfolding rounds
topo steps = rounds (suc (length steps)) steps []
