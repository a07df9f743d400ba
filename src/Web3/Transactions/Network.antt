-- ===== src/Web3/Transactions/Network.antt =====
-- What the manager reaches outside itself: the RPC endpoints of the chains, the sealed keys and the
-- signature. Everything here is a parameter, but for the failover loops of astra/web3/raw_tx.py,
-- the list of chains of astra/web3/chains.py and the signing path `_sign_rec`.
use astra_ai_agent.Prelude.{ℕ, ◌%◌, Option, none, some, List, [], ◌∷◌, String, if◌then◌else◌}
use astra_ai_agent.Prelude.Int.{ℤ, pos, eqb_ℤ, truthy_ℤ}
use astra_ai_agent.Prelude.Text.{Text, codes}
use astra_ai_agent.Web3.RawTx.{
  Bytes, build_unsigned_eip1559, signing_hash_eip1559, serialize_eip1559,
}
use astra_ai_agent.Web3.Transactions.State.{
  Tx, Error, unavailable, bad_value, policy_error, keystore_error, failed_error, Result, ok, err,
}

-- The `status` of a receipt: "0x1", "0x0", or another value.
pub data Receipt : Type 0 where
  succeeded reverted unclear : Receipt

-- The answers of the endpoints while one method runs; `none` is a call that raises. A receipt that
-- is not there yet is `some none`. The hash that answers a broadcast is not the empty text.
pub record Rpc : Type 0 where
  pub transaction_count : String → Text → Option ℤ
  pub gas_price : String → Option ℤ
  pub send_raw : String → Bytes → Option String
  pub transaction_receipt : String → String → Option (Option Receipt)

-- The key store and the signer. `sign` gives the recovery id, r and s.
pub record Vault : Type 0 where
  pub decrypt : Text → Option Text
  pub private_key : Text → Option ℕ
  pub sign : ℕ → Bytes → Option (ℕ × ℤ × ℤ)
  pub keccak : Bytes → Bytes
  pub seal : Bytes → String
  pub unseal : String → Option Bytes
  pub tx_hash : Bytes → String

-- The outcome of `for url in rpc_urls: try: return ... except: continue`.
unfoldable pub first_answer : {A : Type 0} → (String → Option A) → List String → Option A
first_answer ask [] = none
first_answer ask (u ∷ us) = elim (ask u) [ some a ↦ some a | none ↦ first_answer ask us ]

abbrev or_unavailable : {A : Type 0} → Option A → Result A
or_unavailable none = err unavailable
or_unavailable (some a) = ok a

unfoldable pub get_nonce : Rpc → List String → Text → Result ℤ
get_nonce rpc urls address =
    or_unavailable (first_answer (λ u. rpc.transaction_count u address) urls)

unfoldable pub get_gas_price : Rpc → List String → Result ℤ
get_gas_price rpc urls = or_unavailable (first_answer rpc.gas_price urls)

unfoldable pub broadcast_raw : Rpc → List String → Bytes → Result String
broadcast_raw rpc urls raw = or_unavailable (first_answer (λ u. rpc.send_raw u raw) urls)

-- A failing endpoint counts as "not mined yet".
unfoldable pub receipt : Rpc → List String → String → Option Receipt
receipt rpc urls h = elim (first_answer (λ u. rpc.transaction_receipt u h) urls) [
  | none ↦ none
  | some r ↦ r
]

-- `CHAINS`: the id of a chain and its endpoints.
abbrev pub chains : List (ℤ × List String)
chains =
    (
      pos 1,
      "https://cloudflare-eth.com" ∷ "https://ethereum-rpc.publicnode.com"
          ∷ "https://rpc.ankr.com/eth" ∷ [],
    )
    ∷ (pos 8453, "https://mainnet.base.org" ∷ "https://base-rpc.publicnode.com" ∷ [])
    ∷ (pos 42161, "https://arb1.arbitrum.io/rpc" ∷ "https://arbitrum-one-rpc.publicnode.com" ∷ [])
    ∷ (pos 10, "https://mainnet.optimism.io" ∷ "https://optimism-rpc.publicnode.com" ∷ [])
    ∷ (pos 137, "https://polygon-rpc.com" ∷ "https://polygon-bor-rpc.publicnode.com" ∷ [])
    ∷ (pos 56, "https://bsc-dataseed.bnbchain.org" ∷ "https://binance.llamarpc.com" ∷ [])
    ∷ []

chain_in : ℤ → List (ℤ × List String) → Result (List String)
chain_in c [] = err failed_error
chain_in c ((d, urls) ∷ rest) = if eqb_ℤ d c then ok urls else chain_in c rest

-- `_chain_by_id`: the endpoints of the chain.
unfoldable pub chain_by_id : ℤ → Result (List String)
unfolding chain_in
chain_by_id c = chain_in c chains

infixl 5 ◌>>=◌
abbrev ◌>>=◌ : {A B : Type 0} → Result A → (A → Result B) → Result B
ok a >>= f = f a
err e >>= f = err e

abbrev or_error : {A : Type 0} → Error → Option A → Result A
or_error e none = err e
or_error e (some a) = ok a

-- `n or default`
abbrev or_default : ℤ → ℤ → ℤ
or_default n default = if truthy_ℤ n then n else default

-- `rec["from_address"] or "default"`
abbrev key_name : Text → Text
key_name [] = codes "default"
key_name (c ∷ s) = c ∷ s

abbrev pub Signed : Type 0
Signed = record { nonce : ℤ; raw : Bytes }

-- `_sign_rec`; `none` for the vault is a manager with no keystore.
unfoldable pub sign_rec : Rpc → Option Vault → List String → Tx → Result Signed
sign_rec rpc none urls rec = err policy_error
sign_rec rpc (some vault) urls rec = do
  secret ← or_error keystore_error (vault.decrypt (key_name rec.from_address))
  priv ← or_error bad_value (vault.private_key secret)
  nonce ← elim rec.nonce [ some n ↦ ok n | none ↦ get_nonce rpc urls rec.from_address ]
  max_fee ← if truthy_ℤ rec.max_fee_per_gas then ok rec.max_fee_per_gas else get_gas_price rpc urls
  item ← or_error bad_value (
      build_unsigned_eip1559 (record {
        chain_id = rec.chain_id;
        nonce = nonce;
        max_priority_fee = rec.max_priority_fee_per_gas;
        max_fee = max_fee;
        gas_limit = or_default rec.gas_limit (pos 21000);
        to = rec.to_address;
        value_wei = rec.value_wei;
        data_hex = rec.data_hex;
      }))
  hash ← or_error bad_value (signing_hash_eip1559 vault.keccak item)
  (recovery_id, r, s) ← or_error bad_value (vault.sign priv hash)
  raw ← or_error bad_value (serialize_eip1559 item (pos (recovery_id % 2)) r s)
  ok (record { nonce = nonce; raw = raw })
