-- ===== src/Tools/Registry/Attempts.antt =====
-- The attempts of a tool: the first that succeeds is the last, and there are no more than the
-- retries, and one.
use mathlib.Core.Path.{subst}
use astra_ai_agent.Prelude.{ℕ, zero, suc, ◌≤◌, ◌≡◌, ◌⊎◌, refl, sym, ap, inl, inr, arith}
use astra_ai_agent.Prelude.Text.{Text}
use astra_ai_agent.Prelude.Json.{Json, Fields}
use astra_ai_agent.Tools.Registry.{invoke_with_retry}
use astra_ai_agent.Tools.Schemas.{Attempt, returns, throws}

module _ {ℓ} {World : Type ℓ} (fn : World → Fields → World × Attempt) (args : Fields) where
  -- The world after some attempts, and the outcome of the next one.
  unfoldable pub after : ℕ → World → World
  after zero w = w
  after (suc n) w = after n (fn w args).0

  abbrev pub outcome : ℕ → World → Attempt
  outcome n w = (fn (after n w) args).1

  abbrev pub Throws : Attempt → Type 0
  Throws o = (e : Text) × (o ≡ throws e)

  -- The first attempts, up to a number of them, all raised.
  abbrev pub AllThrow : ℕ → World → Type 0
  AllThrow zero w = Unit
  AllThrow (suc n) w = Throws (fn w args).1 × AllThrow n (fn w args).0

  -- What is made of the outcome when `n` retries are left: after some attempts that raised, one
  -- that returned; or the last of `suc n` attempts that all raised.
  abbrev pub Tried : ℕ → World → World × Attempt → Type ℓ
  Tried n w r =
      (k : ℕ) × (k ≤ n)
      × AllThrow k w
      × (r.0 ≡ after (suc k) w)
      × (r.1 ≡ outcome k w)
      × ((k ≡ n) ⊎ ((v : Json) × (r.1 ≡ returns v)))

  Attempt-cases : (o : Attempt) → ((v : Json) × (o ≡ returns v)) ⊎ Throws o
  Attempt-cases (returns v) = inl (v, refl)
  Attempt-cases (throws e) = inr (e, refl)

  invoke-returns :
      (n : ℕ) (w : World) {v : Json}
      → (fn w args).1 ≡ returns v
      → invoke_with_retry fn (suc n) args w ≡ ((fn w args).0, returns v)
  unfolding invoke_with_retry
  invoke-returns n w e = rw (invoke_with_retry, e) refl

  invoke-throws :
      (n : ℕ) (w : World) {e : Text}
      → (fn w args).1 ≡ throws e
      → invoke_with_retry fn (suc n) args w ≡ invoke_with_retry fn n args (fn w args).0
  unfolding invoke_with_retry
  invoke-throws n w e = rw (invoke_with_retry, e) refl

  -- For any tool, arguments, world and number of retries: some attempts raised, no more than the
  -- retries, and the one behind them is the last and gives the result; it returned a value, unless
  -- it was the attempt after all retries.
  pub invoke_with_retry_lem : (n : ℕ) (w : World) → Tried n w (invoke_with_retry fn n args w)
  unfolding invoke_with_retry after
  invoke_with_retry_lem zero w = (0, omega arith, tt, refl, refl, inl refl)
  invoke_with_retry_lem (suc n) w = elim (Attempt-cases (fn w args).1) [
    | inl (v, e) ↦
        subst (Tried (suc n) w) (sym (invoke-returns n w e))
          (0, omega arith, tt, refl, sym e, inr (v, refl))
    | inr (x, e) ↦
        let (k, le, all, world, last, why) = invoke_with_retry_lem n (fn w args).0 in
        subst (Tried (suc n) w) (sym (invoke-throws n w e)) (
          suc k,
          omega (arith, le),
          ((x, e), all),
          world,
          last,
          elim why [ inl same ↦ inl (ap suc same) | inr found ↦ inr found ],
        )
  ]
