-- ===== src/Web3/Keystore/Rotation.antt =====
-- The rotation of the master key.
use astra_ai_agent.Prelude.{◌≡◌, ◌≢◌, refl, none, some, List, [], ◌∷◌, String, arith}
use astra_ai_agent.Prelude.Text.{Text, text_eq_iff}
use astra_ai_agent.Web3.RawTx.{Bytes}
use astra_ai_agent.Web3.Keystore.{
  Crypto, KeyRow, SecureKeyStore, derive_master, unseal, row_of, decrypt, rewrap_all, rotate_master,
}

module _ (crypto : Crypto) (master : Bytes) where
  -- The integrity check tells that a record was not sealed under this master key.
  abbrev pub IsForeign : List KeyRow → Type 0
  IsForeign [] = Unit
  IsForeign (r ∷ rs) =
      (crypto.mac (crypto.derive master r.sealed.salt) r.sealed.ciphertext ≢ r.sealed.tag)
      × IsForeign rs

  refused :
      (r : KeyRow)
      → crypto.mac (crypto.derive master r.sealed.salt) r.sealed.ciphertext ≢ r.sealed.tag
      → unseal crypto master r.sealed ≡ none
  unfolding unseal
  refused r ne = ground (
    arith,
    text_eq_iff (crypto.mac (crypto.derive master r.sealed.salt) r.sealed.ciphertext) r.sealed.tag,
  )

  rewrap_all-IsForeign :
      (salts : String → Bytes) (rows : List KeyRow)
      → IsForeign rows
      → rewrap_all crypto master salts rows ≡ (rows, 0)
  unfolding rewrap_all
  rewrap_all-IsForeign salts [] h = refl
  rewrap_all-IsForeign salts (r ∷ rs) h = rw (refused r h.0, rewrap_all-IsForeign salts rs h.1) refl

  no_secret :
      (n : String) (rows : List KeyRow)
      → IsForeign rows
      → decrypt crypto n (record { master = master; rows = rows }) ≡ none
  unfolding decrypt row_of
  no_secret n [] h = refl
  no_secret n (r ∷ rs) h = ground (arith, refused r h.0, no_secret n rs h.1)

-- When the integrity check tells the records of the old master key from those of the new one, the
-- rotation wraps none of them again, returns 0, and leaves a store from which no secret can be read.
pub rotate_master-IsForeign :
    (crypto : Crypto) (secret : Text) (salts : String → Bytes) (ks : SecureKeyStore)
    (master : Bytes)
    → derive_master crypto secret ≡ some master
    → IsForeign crypto master ks.rows
    → (rotate_master crypto secret salts ks ≡ some (record { master = master; rows = ks.rows }, 0))
      × ((n : String) → decrypt crypto n (record { master = master; rows = ks.rows }) ≡ none)
unfolding rotate_master
rotate_master-IsForeign crypto secret salts ks master d h = (
  rw (d, rewrap_all-IsForeign crypto master salts ks.rows h) refl,
  λ n. no_secret crypto master n ks.rows h,
)
