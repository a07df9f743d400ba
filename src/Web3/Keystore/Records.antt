-- ===== src/Web3/Keystore/Records.antt =====
-- A stored key is read again, and the others are left alone.
use mathlib.Core.Path.{subst}
use mathlib.Core.Option.{some-injective}
use astra_ai_agent.Prelude.{
  ◌≡◌, ◌≢◌, inl, inr, refl, Option-cases, none, some, List, [], ◌∷◌, ◌++◌, String, str_eq, eq_iff,
  arith, if◌then◌else◌,
}
use astra_ai_agent.Prelude.Text.{Text}
use astra_ai_agent.Web3.RawTx.{Bytes}
use astra_ai_agent.Web3.Keystore.{
  Crypto, KeyRow, SecureKeyStore, seal, row_of, store, decrypt, without, delete,
}
use astra_ai_agent.Web3.Keystore.Sealing.{Laws, unseal-seal}

module _ (crypto : Crypto) where
  row_of-insert :
      (n : String) (r : KeyRow) (rows : List KeyRow)
      → row_of crypto n (rows ++ r ∷ []) ≡ elim (row_of crypto n rows) [
        | some q ↦ some q
        | none ↦ if str_eq r.name n then some r else none
      ]
  unfolding row_of
  row_of-insert n r [] = refl
  row_of-insert n r (q ∷ rows) = ground (arith, row_of-insert n r rows)

  row_of-without :
      (n k : String) (rows : List KeyRow)
      → row_of crypto n (without crypto k rows)
        ≡ (if str_eq k n then none else row_of crypto n rows)
  unfolding row_of without
  row_of-without n k [] = ground arith
  row_of-without n k (q ∷ rows) =
      ground (arith, eq_iff q.name k, eq_iff q.name n, eq_iff k n, row_of-without n k rows)

  -- The secret is under its name, and the others are as before.
  abbrev Keeps : SecureKeyStore → String → Text → SecureKeyStore → Type 0
  Keeps ks name secret ks' =
      (decrypt crypto name ks' ≡ some secret)
      × ((n : String) → n ≢ name → decrypt crypto n ks' ≡ decrypt crypto n ks)

  abbrev new_row : String → Bytes → String → Text → String → SecureKeyStore → KeyRow
  new_row kind salt name secret address ks = record {
    name = name;
    address = address;
    kind = kind;
    sealed = seal crypto ks.master salt secret;
  }

  inserted :
      Laws crypto
      → (kind : String) (salt : Bytes) (name : String) (secret : Text) (address : String)
      → (ks : SecureKeyStore) → row_of crypto name ks.rows ≡ none
      → Keeps ks name secret
          (record ks { rows = ks.rows ++ new_row kind salt name secret address ks ∷ [] })
  unfolding decrypt
  inserted laws kind salt name secret address ks e =
      let r = new_row kind salt name secret address ks in
      (
        ground (
          arith,
          row_of-insert name r ks.rows,
          eq_iff name name,
          unseal-seal crypto laws ks.master salt secret,
        ),
        λ n ne. ground (arith, row_of-insert n r ks.rows, eq_iff name n),
      )

  -- When `store_seed` or `store_key` succeeds, `decrypt` of the name gives the secret back, and
  -- `decrypt` of any other name is as before.
  pub decrypt-store :
      Laws crypto
      → (kind : String) (salt : Bytes) (name : String) (secret : Text) (address : String)
      → (ks : SecureKeyStore) {ks' : SecureKeyStore}
      → store crypto kind salt name secret address ks ≡ some ks'
      → (decrypt crypto name ks' ≡ some secret)
        × ((n : String) → n ≢ name → decrypt crypto n ks' ≡ decrypt crypto n ks)
  unfolding store decrypt
  decrypt-store laws kind salt name secret address ks h =
      elim (Option-cases (row_of crypto name ks.rows)) [
        | inr (r, e) ↦ absurd (cc (rw e at h))
        | inl e ↦
            subst (Keeps ks name secret) (some-injective _ _ (rw e at h))
              (inserted laws kind salt name secret address ks e)
      ]

  -- After `delete` there is no secret under the name, and the others are as before.
  pub decrypt-delete :
      (name : String) (ks : SecureKeyStore) (n : String)
      → decrypt crypto n (delete crypto name ks)
        ≡ (if str_eq name n then none else decrypt crypto n ks)
  unfolding decrypt delete
  decrypt-delete name ks n = ground (arith, row_of-without n name ks.rows)
