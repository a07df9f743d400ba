-- ===== src/Workflows/Execution/Finish.antt =====
-- What a run has done when it is over: the steps of an initial part of their order, and all of them
-- without a failure when it is completed.
use mathlib.Core.Path.{subst}
use mathlib.Core.List.{append_assoc}
use astra_ai_agent.Prelude.{
  ℕ, suc, ◌≡◌, ◌⊎◌, inl, inr, refl, sym, ap, ◌∙◌, Bool, ◌||◌, not, Bool-cases, true, false, List,
  [], ◌∷◌, ◌++◌, Option, none, some, Option-cases, ◌==◌, ==_iff, arith,
}
use astra_ai_agent.Prelude.Text.{Text, text_eq, text_eq_iff, text_mem}
use astra_ai_agent.Prelude.Json.{Json, Fields}
use astra_ai_agent.Workflows.Graph.{ids, topo}
use astra_ai_agent.Workflows.Graph.Sets.{Within, Distinct, mem-append}
use astra_ai_agent.Workflows.Graph.Emitted.{topo-Distinct, topo-Within}
use astra_ai_agent.Workflows.Steps.{Step, step_ids, nodes}
use astra_ai_agent.Workflows.Steps.Sound.{ids-nodes}
use astra_ai_agent.Workflows.Definitions.{
  RunStatus, created, running, paused, completed, failed, cancelled, WorkflowRun, Engine,
}
use astra_ai_agent.Workflows.Resolve.{Results, put_result}
use astra_ai_agent.Workflows.Runs.{
  find_run, update_run, on_run, with_status, set_status, cancel_run, is_ended, live_status,
  is_halted, Outside, cancels, sets, ends, deletes, end_row, act, meanwhile,
}
use astra_ai_agent.Workflows.Execution.{
  find_step, pick, ordered_steps, Progress, is_skipped, record_step, run_step, run_loop,
}
use astra_ai_agent.Workflows.Outcome.{Executed, end_status, end_event}

-- The steps that left something.
abbrev pub keys : Results → List Text
keys [] = []
keys ((k, fs) ∷ rs) = k ∷ keys rs

put_result-keys :
    (k : Text) (fs : Fields) (rs : Results)
    → text_mem k (keys rs) ≡ false
    → keys (put_result k fs rs) ≡ keys rs ++ k ∷ []
unfolding put_result text_mem
put_result-keys k fs [] h = refl
put_result-keys k fs ((j, gs) ∷ rs) h =
    let other : text_eq j k ≡ false = ground (arith, text_eq_iff j k, text_eq_iff k j) in
    rw (put_result, other) (ap (λ ks. j ∷ ks) (put_result-keys k fs rs (ground arith)))

abbrev pub on_found : (WorkflowRun → WorkflowRun) → Option WorkflowRun → Option WorkflowRun
on_found f none = none
on_found f (some r) = some (f r)

pub find_run-update_run :
    (k : ℕ) (f : WorkflowRun → WorkflowRun)
    → ((r : WorkflowRun) → (f r).id ≡ r.id)
    → (rs : List WorkflowRun) → find_run k (update_run k f rs) ≡ on_found f (find_run k rs)
unfolding find_run update_run
find_run-update_run k f keeps [] = refl
find_run-update_run k f keeps (r ∷ rs) = elim (Bool-cases (r.id == k)) [
  | inl e ↦ ground (arith, keeps r, ==_iff r.id k, ==_iff (f r).id k)
  | inr e ↦ ground (arith, find_run-update_run k f keeps rs)
]

pub live_status-set_status :
    (k : ℕ) (status : RunStatus) (error : Text) (e : Engine) {r : WorkflowRun}
    → find_run k e.runs ≡ some r
    → live_status k (set_status k status error e) ≡ some status
unfolding live_status set_status on_run with_status
live_status-set_status k status error e h =
    rw
      (
        live_status,
        set_status,
        on_run,
        find_run-update_run k (with_status status error) (λ r. refl) e.runs,
        h,
      )
      refl

-- It lifts a halt: the run gets another status than paused or cancelled, or a
-- definition is deleted, with its runs.
unfoldable pub lifts : Outside → Bool
unfolding is_halted
lifts cancels = false
lifts (sets status error) = not (is_halted (some status))
lifts (ends status error results) = not (is_halted (some status))
lifts (deletes workflow_id) = true

unfoldable pub any_lifts : List Outside → Bool
unfolding lifts
any_lifts [] = false
any_lifts (o ∷ os) = lifts o || any_lifts os

live_status-end_row :
    (k : ℕ) (status : RunStatus) (error : Text) (results : Results) (e : Engine) {r : WorkflowRun}
    → find_run k e.runs ≡ some r
    → live_status k (on_run k (end_row status error results) e) ≡ some status
unfolding live_status on_run end_row
live_status-end_row k status error results e h =
    rw
      (
        live_status,
        on_run,
        find_run-update_run k (end_row status error results) (λ r. refl) e.runs,
        h,
      )
      refl

act-is_halted :
    (o : Outside) (k : ℕ) (e : Engine) {r : WorkflowRun}
    → find_run k e.runs ≡ some r
    → lifts o ≡ false
    → is_halted (live_status k e) ≡ true
    → is_halted (live_status k (act o k e)) ≡ true
unfolding live_status act cancel_run is_halted is_ended lifts
act-is_halted cancels k e {r = r} s l h = elim (Bool-cases (is_ended r.status)) [
  | inl t ↦ rw (act, cancel_run, s, t) (ground (arith, h, s))
  | inr t ↦ rw (act, cancel_run, s, t, live_status-set_status k cancelled [] e s) refl
]
act-is_halted (sets status error) k e s l h =
    rw (live_status-set_status k status error e s) (ground (arith, l))
act-is_halted (ends status error results) k e s l h =
    rw (live_status-end_row k status error results e s) (ground (arith, l))
act-is_halted (deletes workflow_id) k e s l h = absurd (ground (arith, l))

-- A run that is halted stays so, unless another thread lifts the halt.
pub meanwhile-is_halted :
    (os : List Outside) (k : ℕ) (e : Engine)
    → any_lifts os ≡ false
    → is_halted (live_status k e) ≡ true
    → is_halted (live_status k (meanwhile os k e)) ≡ true
unfolding meanwhile any_lifts
meanwhile-is_halted [] k e l h = h
meanwhile-is_halted (o ∷ os) k e l h = meanwhile-is_halted os k (act o k e) (ground (arith, l)) (
    unfold live_status is_halted in
    elim (Option-cases (find_run k e.runs)) [
      | inl n ↦ absurd (ground (arith, h, n))
      | inr (r, s) ↦ act-is_halted o k e s (ground (arith, l)) h
    ])

Distinct-fresh : (a b : List Text) (k : Text) → Distinct (a ++ (k ∷ b)) → text_mem k a ≡ false
unfolding text_mem
Distinct-fresh [] b k d = refl
Distinct-fresh (x ∷ a) b k d =
    ground (
      arith,
      d.0,
      mem-append x a (k ∷ b),
      Distinct-fresh a b k d.1,
      text_eq_iff k x,
      text_eq_iff x k,
    )

pub end_event-runs :
    (status : RunStatus) (k : ℕ) (e : Engine) → (end_event status k e).runs ≡ e.runs
unfolding end_event
end_event-runs completed k e = refl
end_event-runs failed k e = refl
end_event-runs created k e = refl
end_event-runs running k e = refl
end_event-runs paused k e = refl
end_event-runs cancelled k e = refl

-- A completed end: no look found the run halted, and no step failed.
pub end_status-completed :
    (live : Option RunStatus) (failures : List Text)
    → end_status live failures ≡ completed
    → (is_halted live ≡ false) × (failures ≡ [])
unfolding end_status is_halted
end_status-completed none [] h = (refl, refl)
end_status-completed (some s) [] h = ground (arith, h)
end_status-completed none (x ∷ xs) h = absurd (ground (arith, h))
end_status-completed (some s) (x ∷ xs) h = absurd (ground (arith, h))

find_step-id :
    (k : Text) (ss : List Step)
    → text_mem k (step_ids ss) ≡ true
    → (s : Step) × (find_step k ss ≡ some s) × (s.id ≡ k)
unfolding find_step step_ids text_mem
find_step-id k [] m = absurd (ground arith)
find_step-id k (s ∷ ss) m = elim (Bool-cases (text_eq s.id k)) [
  | inl e ↦ (s, rw (find_step, e) refl, (text_eq_iff s.id k).0 e)
  | inr e ↦
      let (t, found, same) =
        find_step-id k ss (ground (arith, text_eq_iff s.id k, text_eq_iff k s.id)) in
      (t, rw (find_step, e) found, same)
]

step_ids-pick :
    (ks : List Text) (ss : List Step) → Within ks (step_ids ss) → step_ids (pick ks ss) ≡ ks
unfolding pick step_ids
step_ids-pick [] ss w = refl
step_ids-pick (k ∷ ks) ss w =
    let (s, found, same) = find_step-id k ss w.0 in
    rw (pick, found) (ground (arith, same, step_ids-pick ks ss w.1))

-- The order of whole steps is that of `_topo`.
pub step_ids-ordered_steps :
    (steps : List Step)
    → Distinct (step_ids steps)
    → step_ids (ordered_steps steps) ≡ ids (topo (nodes steps))
unfolding ordered_steps
step_ids-ordered_steps steps d = step_ids-pick (ids (topo (nodes steps))) steps (
    subst (Within (ids (topo (nodes steps)))) (ids-nodes steps)
      (topo-Within (nodes steps) (subst Distinct (sym (ids-nodes steps)) d)))

pub ordered_steps-Distinct :
    (steps : List Step) → Distinct (step_ids steps) → Distinct (step_ids (ordered_steps steps))
ordered_steps-Distinct steps d =
    subst Distinct (sym (step_ids-ordered_steps steps d))
      (topo-Distinct (nodes steps) (subst Distinct (sym (ids-nodes steps)) d))

module _ {ℓ} {World : Type ℓ} (show : Json → Text)
    (execute : World → Text → Fields → World × Executed) where
  run_step-keys :
      (k : ℕ) (params : Fields) (s : Step) (p : Progress World)
      → text_mem s.id (keys p.results) ≡ false
      → keys (run_step show execute k params s p).results ≡ keys p.results ++ s.id ∷ []
  unfolding run_step record_step
  run_step-keys k params s p fresh = elim (Bool-cases (is_skipped s.condition p.results)) [
    | inl e ↦ rw (run_step, e) (put_result-keys s.id _ p.results fresh)
    | inr e ↦ rw (run_step, e, record_step) (put_result-keys s.id _ p.results fresh)
  ]

  -- The steps that left something are an initial part of all, and all of them unless the run is
  -- halted.
  abbrev pub Stopped : ℕ → List Text → Progress World → Type 0
  Stopped k all p =
      (rest : List Text) × (keys p.results ++ rest ≡ all)
      × ((rest ≡ []) ⊎ (is_halted (live_status k p.engine) ≡ true))

  pub run_loop-Stopped :
      (outside : ℕ → List Outside) (k : ℕ) (params : Fields) (all : List Text) (n : ℕ)
      (ss : List Step)
      → (p : Progress World) → Distinct all
      → keys p.results ++ step_ids ss ≡ all
      → Stopped k all (run_loop show execute outside k params n ss p)
  unfolding run_loop step_ids
  run_loop-Stopped outside k params all n [] p d h = ([], h, inl refl)
  run_loop-Stopped outside k params all n (s ∷ ss) p d h =
      let e = meanwhile (outside n) k p.engine in
      let looked : Progress World = record p { engine = e } in
      elim (Bool-cases (is_halted (live_status k e))) [
        | inl halt ↦ rw (run_loop, halt) (step_ids (s ∷ ss), h, inr halt)
        | inr go ↦
            rw (run_loop, go)
              (run_loop-Stopped outside k params all (suc n) ss
                (run_step show execute k params s looked) d
                (let fresh =
                    Distinct-fresh (keys p.results) (step_ids ss) s.id (subst Distinct (sym h) d) in
                  ap (λ ks. ks ++ step_ids ss) (run_step-keys k params s looked fresh)
                  ∙ append_assoc (keys p.results) (s.id ∷ []) (step_ids ss)
                  ∙ h))
      ]
