-- ===== src/Web3/Keystore.antt =====
-- astra/web3/keystore.py: the sealed keys. A hexadecimal column is the bytes that it names, and a
-- secret the list of its code points. The hashes and the text encoding are parameters, and so are
-- the random salts.
pub mod Sealing
pub mod Records
pub mod Rotation
mod Tests
use astra_ai_agent.Prelude.{
  ℕ, zero, suc, ◌+◌, ◌*◌, ◌/◌, ◌%◌, Bool, true, false, Option, none, some, List, [], ◌∷◌, ◌++◌,
  String, str_eq, length, take, drop, if◌then◌else◌,
}
use astra_ai_agent.Prelude.Text.{Text, text_eq}
use astra_ai_agent.Web3.RawTx.{Bytes, ◌>>=◌}

-- `hashlib.sha256`, `hashlib.pbkdf2_hmac` of a master key and a salt, the keystream block
-- `sha256(key + counter)`, `hmac.new(key, ciphertext, sha256)`, and UTF-8.
pub record Crypto : Type 0 where
  pub sha256 : Bytes → Bytes
  pub derive : Bytes → Bytes → Bytes
  pub keystream : Bytes → ℕ → Bytes
  pub mac : Bytes → Bytes → Bytes
  pub encode : Text → Bytes
  pub decode : Bytes → Option Text

-- `a ^ b`, on the lowest `bits` bits.
unfoldable pub xor : ℕ → ℕ → ℕ → ℕ
xor zero a b = 0
xor (suc bits) a b = (a + b) % 2 + 2 * xor bits (a / 2) (b / 2)

-- `bytes(a ^ b for a, b in zip(chunk, keystream))`
unfoldable pub xor_bytes : Bytes → Bytes → Bytes
unfolding xor
xor_bytes [] s = []
xor_bytes (a ∷ c) [] = []
xor_bytes (a ∷ c) (b ∷ s) = xor 8 a b ∷ xor_bytes c s

-- The loop over the chunks of 32 bytes. The length is fuel enough, since each round takes a byte.
unfoldable pub xor_blocks : (ℕ → Bytes) → ℕ → ℕ → Bytes → Bytes
xor_blocks stream zero i plain = []
xor_blocks stream (suc fuel) i [] = []
xor_blocks stream (suc fuel) i (b ∷ plain) =
    xor_bytes (take 32 (b ∷ plain)) (stream i)
    ++ xor_blocks stream fuel (suc i) (drop 32 (b ∷ plain))

abbrev pub xor_stream : (ℕ → Bytes) → Bytes → Bytes
xor_stream stream plain = xor_blocks stream (length plain) 0 plain

pub record Sealed : Type 0 where
  pub ciphertext : Bytes
  pub tag : Bytes
  pub salt : Bytes

pub record KeyRow : Type 0 where
  pub name : String
  pub address : String
  pub kind : String
  pub sealed : Sealed

pub record SecureKeyStore : Type 0 where
  pub master : Bytes
  pub rows : List KeyRow

module _ (crypto : Crypto) where
  -- `_derive_master`; `none` is the KeystoreError of an empty secret.
  unfoldable pub derive_master : Text → Option Bytes
  derive_master [] = none
  derive_master (c ∷ s) = some (crypto.sha256 (crypto.encode (c ∷ s)))

  -- `_seal`, with the salt that `os.urandom` gives.
  unfoldable pub seal : Bytes → Bytes → Text → Sealed
  unfolding xor_blocks xor_bytes
  seal master salt secret =
      let key = crypto.derive master salt in
      let ciphertext = xor_stream (crypto.keystream key) (crypto.encode secret) in
      record { ciphertext = ciphertext; tag = crypto.mac key ciphertext; salt = salt }

  -- `_open`; `none` is the KeystoreError.
  unfoldable pub unseal : Bytes → Sealed → Option Text
  unseal master s =
      let key = crypto.derive master s.salt in
      if text_eq (crypto.mac key s.ciphertext) s.tag
      then crypto.decode (xor_stream (crypto.keystream key) s.ciphertext)
      else none

  unfoldable pub row_of : String → List KeyRow → Option KeyRow
  row_of n [] = none
  row_of n (r ∷ rs) = if str_eq r.name n then some r else row_of n rs

  abbrev pub add_row : Option KeyRow → KeyRow → SecureKeyStore → Option SecureKeyStore
  add_row (some _) r ks = none
  add_row none r ks = some (record ks { rows = ks.rows ++ r ∷ [] })

  -- `store_seed` and `store_key`; `none` is the error of a name that is taken.
  unfoldable pub store :
      String → Bytes → String → Text → String → SecureKeyStore → Option SecureKeyStore
  store kind salt name secret address ks =
      add_row (row_of name ks.rows)
        (record {
          name = name;
          address = address;
          kind = kind;
          sealed = seal ks.master salt secret;
        })
        ks

  unfoldable pub decrypt : String → SecureKeyStore → Option Text
  decrypt name ks = do r ← row_of name ks.rows; unseal ks.master r.sealed

  unfoldable pub without : String → List KeyRow → List KeyRow
  without n [] = []
  without n (r ∷ rs) = if str_eq r.name n then without n rs else r ∷ without n rs

  unfoldable pub delete : String → SecureKeyStore → SecureKeyStore
  delete name ks = record ks { rows = without name ks.rows }

  -- One round of the loop of `rotate_master`: the row, and whether it was wrapped again.
  abbrev pub rewrap : Bytes → Bytes → KeyRow → Option Text → KeyRow × ℕ
  rewrap master salt r none = (r, 0)
  rewrap master salt r (some plain) = (record r { sealed = seal master salt plain }, 1)

  unfoldable pub rewrap_all : Bytes → (String → Bytes) → List KeyRow → List KeyRow × ℕ
  rewrap_all master salts [] = ([], 0)
  rewrap_all master salts (r ∷ rs) =
      let here = rewrap master (salts r.name) r (unseal master r.sealed) in
      let rest = rewrap_all master salts rs in (here.0 ∷ rest.0, here.1 + rest.1)

  -- `rotate_master`: the store and the number that it returns.
  unfoldable pub rotate_master :
      Text → (String → Bytes) → SecureKeyStore → Option (SecureKeyStore × ℕ)
  rotate_master secret salts ks = do
    new_master ← derive_master secret
    let done = rewrap_all new_master salts ks.rows
    some (record { master = new_master; rows = done.0 }, done.1)
