-- ===== src/Tools/Registry/Gates.antt =====
-- What passes the gates, and what an agent can do through the registry.
use mathlib.Core.Path.{subst}
use astra_ai_agent.Prelude.{
  ℕ, zero, suc, ◌≡◌, ◌⊎◌, refl, sym, ◌∙◌, Bool, Bool-cases, true, false, ◌&&◌, inl, inr, List, [],
  ◌∷◌, Option-cases, none, some, String, str_eq, ◌==◌, arith,
}
use astra_ai_agent.Prelude.Json.{Fields}
use astra_ai_agent.Core.Permissions.{Answer, allow, ask, deny}
use astra_ai_agent.Tools.Registry.{
  ToolRegistry, ToolReply, find_tool, invoke_with_retry, enforce_rate_limit, record_attempt,
  run_allowed, run_valid, tool_decision, run_decided, run_tool, execute_tool, emit_tool, note_call,
}
use astra_ai_agent.Tools.Schemas.{Attempt, returns, throws, Tool, satisfies}

Answer-cases : (x : Answer) → (x ≡ allow) ⊎ ((x ≡ ask) ⊎ (x ≡ deny))
Answer-cases allow = inl refl
Answer-cases ask = inr (inl refl)
Answer-cases deny = inr (inr refl)

-- A call by an agent: its time, whether confirmations are delegated, the tool and the arguments.
pub record AgentCall : Type 0 where
  pub now : ℕ
  pub allow_confirmation : Bool
  pub name : String
  pub args : Fields

module _ {ℓ} {World : Type ℓ} where
  -- The gates are passed: a tool that is no host tool when an agent calls, that the policy allows,
  -- and whose arguments are those of its schema.
  abbrev pub Passes : Bool → Bool → Fields → ToolRegistry World → Tool World → Type 0
  Passes agent allow_confirmation args r t =
      ((t.agent_forbidden && agent) ≡ false)
      × (tool_decision allow_confirmation t r ≡ allow)
      × (satisfies t args ≡ none)

  -- Either the world is as it was, and no call is noted; or there is a tool of that name that
  -- passes the gates, and the world is as its attempts left it.
  abbrev pub Gated :
      Bool
      → Bool
      → String
      → Fields
      → ToolRegistry World
      → World
      → ToolRegistry World × World × ToolReply
      → Type ℓ
  Gated agent allow_confirmation k args r w result =
      ((result.1 ≡ w) × (result.0.stats ≡ r.stats))
      ⊎ ((t : Tool World) × (find_tool k r.tools ≡ some t)
          × Passes agent allow_confirmation args r t
          × (result.1 ≡ (invoke_with_retry t.fn t.retries args w).0))

  record_attempt-world :
      (k : String) (r : ToolRegistry World) (out : World × Attempt)
      → (record_attempt k r out).1 ≡ out.0
  unfolding record_attempt
  record_attempt-world k r (w, returns v) = refl
  record_attempt-world k r (w, throws e) = refl

  -- Whoever calls, with whatever policy, arguments and tools: the world is touched only by the
  -- attempts of a tool that passes all gates; in any other case it is as before, and no call is
  -- noted.
  pub execute_tool-Gated :
      (interval : ℕ → ℕ) (now : ℕ) (agent allow_confirmation : Bool) (k : String) (args : Fields)
      → (r : ToolRegistry World) (w : World)
      → Gated agent allow_confirmation k args r w
          (execute_tool interval now agent allow_confirmation k args r w)
  unfolding execute_tool run_tool run_decided run_valid run_allowed emit_tool
  execute_tool-Gated interval now agent ac k args r w = elim (Option-cases (find_tool k r.tools)) [
    | inl n ↦ rw (execute_tool, n) (inl (refl, refl))
    | inr (t, f) ↦ elim (Bool-cases (t.agent_forbidden && agent)) [
      | inl b ↦ rw (execute_tool, f, run_tool, b) (inl (refl, refl))
      | inr b ↦ elim (Answer-cases (tool_decision ac t r)) [
        | inr (inl d) ↦ rw (execute_tool, f, run_tool, b, run_decided, d) (inl (refl, refl))
        | inr (inr d) ↦ rw (execute_tool, f, run_tool, b, run_decided, d) (inl (refl, refl))
        | inl d ↦ elim (Option-cases (satisfies t args)) [
          | inr (e, s) ↦
              rw (execute_tool, f, run_tool, b, run_decided, d, run_valid, s) (inl (refl, refl))
          | inl s ↦ inr (
            t,
            f,
            (b, d, s),
            rw (execute_tool, f, run_tool, b, run_decided, d, run_valid, s)
                (record_attempt-world t.name _ (invoke_with_retry t.fn t.retries args w)),
          )
        ]
      ]
    ]
  ]

  record_attempt-tools :
      (k : String) (r : ToolRegistry World) (out : World × Attempt)
      → (record_attempt k r out).0.tools ≡ r.tools
  unfolding record_attempt emit_tool note_call
  record_attempt-tools k r (w, returns v) = refl
  record_attempt-tools k r (w, throws e) = refl

  enforce_rate_limit-tools :
      (interval : ℕ → ℕ) (now : ℕ) (t : Tool World) (r : ToolRegistry World)
      → (enforce_rate_limit interval now t r).tools ≡ r.tools
  unfolding enforce_rate_limit
  enforce_rate_limit-tools interval now t r = elim (Bool-cases (t.rate_limit_per_min == 0)) [
    | inl e ↦ rw (enforce_rate_limit, e) refl
    | inr e ↦ rw (enforce_rate_limit, e) refl
  ]

  run_allowed-tools :
      (interval : ℕ → ℕ) (now : ℕ) (t : Tool World) (args : Fields) (r : ToolRegistry World)
      (w : World)
      → (run_allowed interval now t args r w).0.tools ≡ r.tools
  unfolding run_allowed emit_tool
  run_allowed-tools interval now t args r w =
      record_attempt-tools t.name _ (invoke_with_retry t.fn t.retries args w)
      ∙ enforce_rate_limit-tools interval now t r

  execute_tool-tools :
      (interval : ℕ → ℕ) (now : ℕ) (agent ac : Bool) (k : String) (args : Fields)
      → (r : ToolRegistry World) (w : World)
      → (execute_tool interval now agent ac k args r w).0.tools ≡ r.tools
  unfolding execute_tool run_tool run_decided run_valid emit_tool
  execute_tool-tools interval now agent ac k args r w = elim (Option-cases (find_tool k r.tools)) [
    | inl n ↦ rw (execute_tool, n) refl
    | inr (t, f) ↦ elim (Bool-cases (t.agent_forbidden && agent)) [
      | inl b ↦ rw (execute_tool, f, run_tool, b) refl
      | inr b ↦ elim (Answer-cases (tool_decision ac t r)) [
        | inr (inl d) ↦ rw (execute_tool, f, run_tool, b, run_decided, d) refl
        | inr (inr d) ↦ rw (execute_tool, f, run_tool, b, run_decided, d) refl
        | inl d ↦ elim (Option-cases (satisfies t args)) [
          | inr (e, s) ↦ rw (execute_tool, f, run_tool, b, run_decided, d, run_valid, s) refl
          | inl s ↦
              rw (execute_tool, f, run_tool, b, run_decided, d, run_valid, s)
                (run_allowed-tools interval now t args r w)
        ]
      ]
    ]
  ]

  unfoldable pub agent_calls :
      (ℕ → ℕ) → List AgentCall → ToolRegistry World → World → ToolRegistry World × World
  unfolding execute_tool
  agent_calls interval [] r w = (r, w)
  agent_calls interval (c ∷ cs) r w =
      let x = execute_tool interval c.now true c.allow_confirmation c.name c.args r w in
      agent_calls interval cs x.0 x.1

  module _ (p : World → Type 0) where
    -- A tool that is open to agents keeps the property.
    abbrev pub KeepsIt : Tool World → Type ℓ
    KeepsIt t = t.agent_forbidden ≡ false → (args : Fields) (w : World) → p w → p (t.fn w args).0

    abbrev pub AllKeepIt : List (Tool World) → Type ℓ
    AllKeepIt [] = Unit
    AllKeepIt (t ∷ ts) = KeepsIt t × AllKeepIt ts

    find_tool-KeepsIt :
        (k : String) (ts : List (Tool World)) {t : Tool World}
        → find_tool k ts ≡ some t
        → AllKeepIt ts
        → KeepsIt t
    unfolding find_tool
    find_tool-KeepsIt k [] h all = absurd (ground (arith, h))
    find_tool-KeepsIt k (x ∷ ts) {t = t} h all = elim (Bool-cases (str_eq x.name k)) [
      | inl e ↦ let same : x ≡ t = ground (arith, h, e) in subst KeepsIt same all.0
      | inr e ↦ find_tool-KeepsIt k ts {t = t} (ground (arith, h, e)) all.1
    ]

    invoke_with_retry-keeps :
        (fn : World → Fields → World × Attempt) (n : ℕ) (args : Fields) (w : World)
        → ((v : World) → p v → p (fn v args).0)
        → p w
        → p (invoke_with_retry fn n args w).0
    unfolding invoke_with_retry
    invoke_with_retry-keeps fn zero args w keeps h = keeps w h
    invoke_with_retry-keeps fn (suc n) args w keeps h =
        go (fn w args).1 (keeps w h)
          (invoke_with_retry-keeps fn n args (fn w args).0 keeps (keeps w h))
      where
        go :
            (o : Attempt)
            → p (fn w args).0
            → p (invoke_with_retry fn n args (fn w args).0).0
            → p
                (elim o as (λ _. World × Attempt) [
                  | returns v ↦ ((fn w args).0, returns v)
                  | throws e ↦ invoke_with_retry fn n args (fn w args).0
                ]).0
        go (returns v) a b = a
        go (throws e) a b = b

    -- What the tools that are open to agents keep, every sequence of calls by agents keeps, whatever
    -- the policy, the arguments and the limits: a tool that is forbidden to agents has no part in it.
    pub agent_calls-keep :
        (interval : ℕ → ℕ) (cs : List AgentCall) (r : ToolRegistry World) (w : World)
        → AllKeepIt r.tools
        → p w
        → p (agent_calls interval cs r w).1
    unfolding agent_calls
    agent_calls-keep interval [] r w all h = h
    agent_calls-keep interval (c ∷ cs) r w all h =
        let x = execute_tool interval c.now true c.allow_confirmation c.name c.args r w in
        let same = execute_tool-tools interval c.now true c.allow_confirmation c.name c.args r w in
        agent_calls-keep interval cs x.0 x.1 (subst AllKeepIt (sym same) all)
          (elim (execute_tool-Gated interval c.now true c.allow_confirmation c.name c.args r w) [
            | inl (world, stats) ↦ subst p (sym world) h
            | inr (t, found, passes, world) ↦
                let keeps = find_tool-KeepsIt c.name r.tools {t = t} found all in
                subst p (sym world) (
                  invoke_with_retry-keeps t.fn t.retries c.args w
                    (keeps (ground (arith, passes.0)) c.args) h)
          ])
