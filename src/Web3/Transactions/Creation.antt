-- ===== src/Web3/Transactions/Creation.antt =====
-- What `create` does, by the verdict of the policy.
use astra_ai_agent.Prelude.{
  ◌≡◌, ◌≢◌, ◌⊎◌, inl, inr, refl, sym, ap, Bool, true, false, none, [], ◌∷◌, ◌++◌, String, arith,
  Bool-cases,
}
use astra_ai_agent.Web3.Policy.{TxRequest, Verdict, allow, ask, block, evaluate}
use astra_ai_agent.Web3.Transactions.State.{
  Tx, prepared, Stamp, tx_prepared, Manager, policy_error, ok, err, find,
}
use astra_ai_agent.Web3.Transactions.Lifecycle.{info, create, prepared_row, spent_today}

abbrev pub is_ask : Verdict → Bool
is_ask ask = true
is_ask _ = false

-- The row of a request that was just prepared: it carries the request, nothing was signed or sent for
-- it, and it needs approval exactly if the policy said ask.
pub record IsPreparedFor (req : TxRequest) (k : String) (approval : Bool) (row : Tx) : Type 0 where
  pub tx_id : row.tx_id ≡ k
  pub status : row.status ≡ prepared
  pub requires_approval : row.requires_approval ≡ approval
  pub chain_id : row.chain_id ≡ req.chain_id
  pub from_address : row.from_address ≡ req.from_address
  pub to_address : row.to_address ≡ req.to_address
  pub value_wei : row.value_wei ≡ req.value_wei
  pub data_hex : row.data_hex ≡ req.data_hex
  pub gas_limit : row.gas_limit ≡ req.gas_limit
  pub max_fee_per_gas : row.max_fee_per_gas ≡ req.max_fee_per_gas
  pub max_priority_fee_per_gas : row.max_priority_fee_per_gas ≡ req.max_priority_fee_per_gas
  pub nonce : row.nonce ≡ req.nonce
  pub unsigned : row.signed_raw_wrapped ≡ none
  pub unsent : row.submitted_hash ≡ none
  pub unauthorized : row.authorized_by ≡ ""

module _ (req : TxRequest) (k : String) (now : Stamp) (m : Manager) where
  -- The verdict on the request, with what was spent today.
  abbrev pub verdict : Verdict
  verdict = (evaluate m.cfg req (spent_today now.day m)).verdict

  -- The manager with one row more, and the event for it.
  abbrev pub with_row : Tx → Manager
  with_row row = record m {
    rows = m.rows ++ row ∷ [];
    events = m.events ++ tx_prepared k verdict ∷ [];
  }

  -- `create` was refused, or it added one row.
  abbrev pub Created : Type 0
  Created =
      (((m.stopped ≡ true) ⊎ (verdict ≡ block)) × (create req k now m ≡ (err policy_error, m)))
      ⊎ ((m.stopped ≡ false)
          × (verdict ≢ block)
          × ((row : Tx) × (create req k now m ≡ (ok (info row), with_row row))
              × IsPreparedFor req k (is_ask verdict) row))

  added :
      (approval : Bool)
      → m.stopped ≡ false
      → verdict ≢ block
      → is_ask verdict ≡ approval
      → create req k now m
        ≡ (ok (info (prepared_row req k approval now)), with_row (prepared_row req k approval now))
      → Created
  added approval active passed same made = inr (
    active,
    passed,
    (
      prepared_row req k approval now,
      made,
      record {
        tx_id = refl;
        status = refl;
        requires_approval = sym same;
        chain_id = refl;
        from_address = refl;
        to_address = refl;
        value_wei = refl;
        data_hex = refl;
        gas_limit = refl;
        max_fee_per_gas = refl;
        max_priority_fee_per_gas = refl;
        nonce = refl;
        unsigned = refl;
        unsent = refl;
        unauthorized = refl;
      },
    ),
  )

  by_verdict : find k m.rows ≡ none → (v : Verdict) → verdict ≡ v → m.stopped ≡ false → Created
  unfolding create
  by_verdict fresh allow q s = added false s (ground arith) (ap is_ask q) (ground arith)
  by_verdict fresh ask q s = added true s (ground arith) (ap is_ask q) (ground arith)
  by_verdict fresh block q s = inl (inr q, ground arith)

  -- With a fresh id: a stopped manager and a blocked request end in a policy error that changes
  -- nothing. Any other request adds one row, whose status is PREPARED, which carries the request, is
  -- neither signed nor sent nor authorized, and needs approval exactly if the verdict is ask; and
  -- nothing is handed to the network.
  pub create_lem : find k m.rows ≡ none → Created
  unfolding create
  create_lem fresh = elim (Bool-cases m.stopped) [
    | inl s ↦ inl (inl s, ground arith)
    | inr s ↦ by_verdict fresh verdict refl s
  ]
