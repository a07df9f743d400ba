-- ===== src/Web3/Policy/Gate.antt =====
-- The gate `evaluate` against a description of what the policy admits.
use astra_ai_agent.Prelude.{
  ◌≡◌, ◌≢◌, ◌↔◌, ◌⊎◌, refl, Bool, true, false, not, ◌&&◌, ◌||◌, Option, none, some, List, [], ◌∷◌,
  String, arith, length, ◌==◌, Option-cases, inl, inr, if◌then◌else◌,
}
use astra_ai_agent.Prelude.Int.{ℤ, pos, ◌+ℤ◌, ◌≤ℤ◌, ltb_ℤ, int_laws, eqb_ℤ_iff}
use astra_ai_agent.Prelude.Text.{Text, text_eq, text_mem, text_eq_iff, strip, lower}
use astra_ai_agent.Web3.Policy.{
  PolicyConfig, TxRequest, Verdict, allow, ask, block, norm, without_prefix, nonempty, chain_mem,
  allowed_chains, outside, exceeds, auto_mode, block_reason, evaluate,
}

abbrev pub In : {A : Type 0} → A → List A → Type 0
In x [] = ⊥
In x (y ∷ ys) = (x ≡ y) ⊎ In x ys

-- An empty allowlist is open.
abbrev pub Admits : List Text → Text → Type 0
Admits allowed a = (allowed ≡ []) ⊎ In a allowed

-- A limit of 0 is no limit.
abbrev pub Within : ℤ → ℤ → Type 0
Within limit value = (limit ≡ pos 0) ⊎ (value ≤ℤ limit)

-- What the policy promises of a send that it lets through.
pub record WithinPolicy (cfg : PolicyConfig) (req : TxRequest) (spent : ℤ) : Type 0 where
  pub sender : Admits cfg.allowed_wallets (norm req.from_address)
  pub recipient : Admits cfg.allowed_recipients (norm req.to_address)
  pub well_formed : length (norm req.to_address) ≡ 40
  pub nonnegative : pos 0 ≤ℤ req.value_wei
  pub per_tx : Within cfg.max_tx_value_wei req.value_wei
  pub daily : Within cfg.max_daily_tx_value_wei (spent +ℤ req.value_wei)
  pub gas : Within cfg.max_gas_limit req.gas_limit
  pub contract : (req.data_hex ≡ []) ⊎ Admits cfg.allowed_contracts (norm req.to_address)
  pub chain : In req.chain_id (allowed_chains cfg)

text_mem_iff : (s : Text) (ts : List Text) → (text_mem s ts ≡ true) ↔ In s ts
unfolding text_mem
text_mem_iff s [] = ground arith
text_mem_iff s (t ∷ ts) = ground (arith, text_eq_iff s t, text_mem_iff s ts)

chain_mem_iff : (c : ℤ) (cs : List ℤ) → (chain_mem c cs ≡ true) ↔ In c cs
unfolding chain_mem
chain_mem_iff c [] = ground arith
chain_mem_iff c (d ∷ ds) = ground (arith, eqb_ℤ_iff c d, chain_mem_iff c ds)

outside_iff :
    (allowed : List Text) (a : Text) → (outside allowed a ≡ false) ↔ Admits allowed (norm a)
outside_iff [] a = ground arith
outside_iff (t ∷ ts) a = ground (arith, text_mem_iff (norm a) (t ∷ ts))

exceeds_iff : (limit value : ℤ) → (exceeds limit value ≡ false) ↔ Within limit value
exceeds_iff limit value = ground arith

-- The test that the address is not empty is subsumed by that of its length.
malformed_iff :
    (a : Text)
    → ((not (nonempty a) || not (length (norm a) == 40)) ≡ false) ↔ (length (norm a) ≡ 40)
unfolding norm without_prefix strip lower
malformed_iff [] = ground arith
malformed_iff (c ∷ s) = ground arith

-- A row of guards lets a send through exactly when none of them fires.
module _ {b₁ b₂ b₃ b₄ b₅ b₆ b₇ b₈ b₉ : Bool} where
  guards_iff :
      (r₁ r₂ r₃ r₄ r₅ r₆ r₇ r₈ r₉ : String)
      → ((if b₁
            then some r₁
            else if b₂
            then some r₂
            else if b₃
            then some r₃
            else if b₄
            then some r₄
            else if b₅
            then some r₅
            else if b₆
            then some r₆
            else if b₇
            then some r₇
            else if b₈
            then some r₈
            else if not b₉
            then some r₉
            else none)
          ≡ none)
        ↔ ((b₁ ≡ false)
            × (b₂ ≡ false)
            × (b₃ ≡ false)
            × (b₄ ≡ false)
            × (b₅ ≡ false)
            × (b₆ ≡ false)
            × (b₇ ≡ false)
            × (b₈ ≡ false)
            × (b₉ ≡ true))
  guards_iff r₁ r₂ r₃ r₄ r₅ r₆ r₇ r₈ r₉ = ground arith

nonnegative_iff : (v : ℤ) → (ltb_ℤ v (pos 0) ≡ false) ↔ (pos 0 ≤ℤ v)
nonnegative_iff v = ground arith

-- The contract allowlist binds only a call that carries data.
contract_iff :
    (payload : Text) (allowed : List Text) (a : Text)
    → ((nonempty payload && outside allowed a) ≡ false) ↔ ((payload ≡ []) ⊎ Admits allowed (norm a))
contract_iff [] allowed a = ground arith
contract_iff (c ∷ s) allowed a = ground (arith, outside_iff allowed a)

abbrev verdict_of : Option String → Bool → Verdict
verdict_of (some _) _ = block
verdict_of none auto = if auto then allow else ask

-- The three verdicts, from the meaning of the two tests.
verdict_table :
    {W P : Type 0} (o : Option String) (auto : Bool)
    → ((o ≡ none) ↔ W)
    → ((auto ≡ true) ↔ P)
    → ((verdict_of o auto ≡ allow) ↔ (W × P))
      × ((verdict_of o auto ≡ ask) ↔ (W × (¬ P)))
      × ((verdict_of o auto ≡ block) ↔ (¬ W))
verdict_table (some r) auto w p =
    ((λ e. cc, λ h. cc (w.1 h.0)), (λ e. cc, λ h. cc (w.1 h.0)), (λ e h. cc (w.1 h), λ h. refl))
verdict_table none true w p = (
  (λ e. (w.0 refl, p.0 refl), λ h. refl),
  (λ e. cc, λ h. absurd (h.1 (p.0 refl))),
  (λ e. cc, λ h. absurd (h (w.0 refl))),
)
verdict_table none false w p = (
  (λ e. cc, λ h. cc (p.1 h.1)),
  (λ e. (w.0 refl, λ h. cc (p.1 h)), λ h. refl),
  (λ e. cc, λ h. absurd (h (w.0 refl))),
)

module _ (cfg : PolicyConfig) (req : TxRequest) (spent : ℤ) where
  block_reason-none : block_reason cfg req spent ≡ none → WithinPolicy cfg req spent
  unfolding block_reason
  block_reason-none h =
      let g = (guards_iff _ _ _ _ _ _ _ _ _).0 h in
      record {
        sender = (outside_iff cfg.allowed_wallets req.from_address).0 g.0;
        recipient = (outside_iff cfg.allowed_recipients req.to_address).0 g.1;
        well_formed = (malformed_iff req.to_address).0 g.2;
        nonnegative = (nonnegative_iff req.value_wei).0 g.3;
        per_tx = (exceeds_iff cfg.max_tx_value_wei req.value_wei).0 g.4;
        daily = (exceeds_iff cfg.max_daily_tx_value_wei (spent +ℤ req.value_wei)).0 g.5;
        gas = (exceeds_iff cfg.max_gas_limit req.gas_limit).0 g.6;
        contract = (contract_iff req.data_hex cfg.allowed_contracts req.to_address).0 g.7;
        chain = (chain_mem_iff req.chain_id (allowed_chains cfg)).0 g.8;
      }

  block_reason_of_within : WithinPolicy cfg req spent → block_reason cfg req spent ≡ none
  unfolding block_reason
  block_reason_of_within w = (guards_iff _ _ _ _ _ _ _ _ _).1 (
    (outside_iff cfg.allowed_wallets req.from_address).1 w.sender,
    (outside_iff cfg.allowed_recipients req.to_address).1 w.recipient,
    (malformed_iff req.to_address).1 w.well_formed,
    (nonnegative_iff req.value_wei).1 w.nonnegative,
    (exceeds_iff cfg.max_tx_value_wei req.value_wei).1 w.per_tx,
    (exceeds_iff cfg.max_daily_tx_value_wei (spent +ℤ req.value_wei)).1 w.daily,
    (exceeds_iff cfg.max_gas_limit req.gas_limit).1 w.gas,
    (contract_iff req.data_hex cfg.allowed_contracts req.to_address).1 w.contract,
    (chain_mem_iff req.chain_id (allowed_chains cfg)).1 w.chain,
  )

  evaluate-verdict_of :
      (evaluate cfg req spent).verdict
      ≡ verdict_of (block_reason cfg req spent) (text_eq cfg.mode auto_mode)
  unfolding evaluate
  evaluate-verdict_of = ground arith

  -- For every configuration, request and amount spent: `evaluate` answers allow exactly when the
  -- send is within the policy and the mode is AUTO, ask exactly when it is within the policy and the
  -- mode is any other, and block exactly when it is not within the policy.
  pub evaluate-verdict :
      (((evaluate cfg req spent).verdict ≡ allow)
        ↔ (WithinPolicy cfg req spent × (cfg.mode ≡ auto_mode)))
      × (((evaluate cfg req spent).verdict ≡ ask)
          ↔ (WithinPolicy cfg req spent × (cfg.mode ≢ auto_mode)))
      × (((evaluate cfg req spent).verdict ≡ block) ↔ (¬ WithinPolicy cfg req spent))
  evaluate-verdict = rw evaluate-verdict_of (
      verdict_table (block_reason cfg req spent) (text_eq cfg.mode auto_mode)
        (block_reason-none, block_reason_of_within) (text_eq_iff cfg.mode auto_mode))

module _ (cfg : PolicyConfig) (req : TxRequest) (less spent : ℤ) (le : less ≤ℤ spent) where
  daily_mono :
      Within cfg.max_daily_tx_value_wei (spent +ℤ req.value_wei)
      → Within cfg.max_daily_tx_value_wei (less +ℤ req.value_wei)
  daily_mono (inl e) = inl e
  daily_mono (inr h) = inr (omega int_laws)

  WithinPolicy-mono : WithinPolicy cfg req spent → WithinPolicy cfg req less
  WithinPolicy-mono w = record {
    sender = w.sender;
    recipient = w.recipient;
    well_formed = w.well_formed;
    nonnegative = w.nonnegative;
    per_tx = w.per_tx;
    daily = daily_mono w.daily;
    gas = w.gas;
    contract = w.contract;
    chain = w.chain;
  }

  -- Whoever has spent less is not treated worse: a send that is not blocked after some spending
  -- gets the same verdict after any lower spending.
  pub evaluate_mono :
      (evaluate cfg req spent).verdict ≢ block
      → (evaluate cfg req less).verdict ≡ (evaluate cfg req spent).verdict
  evaluate_mono ok = elim (Option-cases (block_reason cfg req spent)) [
    | inl e ↦ rw (
      evaluate-verdict_of,
      evaluate-verdict_of,
      e,
      block_reason_of_within cfg req less (WithinPolicy-mono (block_reason-none cfg req spent e)),
    )
    | inr (r, e) ↦ absurd (ok (rw (evaluate-verdict_of, e)))
  ]
