-- ===== src/Web3/Keystore/Tests.antt =====
-- The theorems of the key store at concrete keys, with small functions for the hashes.
use astra_ai_agent.Prelude.{
  ℕ, zero, suc, ap, ◌∙◌, ◌+◌, ◌≡◌, ◌≢◌, refl, none, some, [], ◌∷◌, ◌++◌, String, length, replicate,
  arith,
}
use astra_ai_agent.Prelude.Text.{Text, codes}
use astra_ai_agent.Web3.RawTx.{Bytes}
use astra_ai_agent.Web3.Keystore.{
  Crypto, SecureKeyStore, seal, unseal, row_of, store, decrypt, derive_master, rotate_master,
}
use astra_ai_agent.Web3.Keystore.Sealing.{AreBytes, Laws, unseal-seal}
use astra_ai_agent.Web3.Keystore.Records.{decrypt-store}
use astra_ai_agent.Web3.Keystore.Rotation.{IsForeign, rotate_master-IsForeign}

-- A code point as that many ones and a zero.
abbrev unary : Text → Bytes
unary [] = []
unary (n ∷ s) = replicate n 1 ++ 0 ∷ unary s

abbrev read_unary : ℕ → Bytes → Text
read_unary n [] = []
read_unary n (zero ∷ bs) = n ∷ read_unary 0 bs
read_unary n (suc _ ∷ bs) = read_unary (suc n) bs

abbrev toy : Crypto
toy = record {
  sha256 = λ b. b;
  derive = λ master salt. master ++ salt;
  keystream = λ key i. replicate 32 7;
  mac = λ key c. key;
  encode = unary;
  decode = λ b. some (read_unary 0 b);
}

ones-AreBytes : (n : ℕ) (bs : Bytes) → AreBytes bs → AreBytes (replicate n 1 ++ bs)
ones-AreBytes zero bs h = h
ones-AreBytes (suc n) bs h = (omega arith, ones-AreBytes n bs h)

unary-AreBytes : (s : Text) → AreBytes (unary s)
unary-AreBytes [] = tt
unary-AreBytes (n ∷ s) = ones-AreBytes n (0 ∷ unary s) (omega arith, unary-AreBytes s)

read_ones :
    (n k : ℕ) (bs : Bytes) → read_unary k (replicate n 1 ++ 0 ∷ bs) ≡ (n + k) ∷ read_unary 0 bs
read_ones zero k bs = ap (λ j. j ∷ read_unary 0 bs) (omega arith)
read_ones (suc n) k bs = read_ones n (suc k) bs ∙ ap (λ j. j ∷ read_unary 0 bs) (omega arith)

read-unary : (s : Text) → read_unary 0 (unary s) ≡ s
read-unary [] = refl
read-unary (n ∷ s) = read_ones n 0 (unary s) ∙ rw (read-unary s) (ap (λ j. j ∷ s) (omega arith))

toy-Laws : Laws toy
toy-Laws = record {
  block = λ key i. refl;
  bytes = unary-AreBytes;
  decoded = λ s. ap some (read-unary s);
}

unseal-seal_example :
    unseal toy (1 ∷ []) (seal toy (1 ∷ []) (2 ∷ []) (codes "seed")) ≡ some (codes "seed")
unseal-seal_example = unseal-seal toy toy-Laws (1 ∷ []) (2 ∷ []) (codes "seed")

abbrev empty : SecureKeyStore
empty = record { master = 1 ∷ []; rows = [] }

stored :
    (ks : SecureKeyStore) × (store toy "seed" (2 ∷ []) "default" (codes "seed") "0x1" empty
      ≡ some ks)
unfolding store row_of
stored = (_, refl)

decrypt-store_example :
    (decrypt toy "default" stored.0 ≡ some (codes "seed"))
    × ((n : String) → n ≢ "default" → decrypt toy n stored.0 ≡ decrypt toy n empty)
decrypt-store_example =
    decrypt-store toy toy-Laws "seed" (2 ∷ []) "default" (codes "seed") "0x1" empty stored.1

abbrev one_key : SecureKeyStore
one_key = record {
  master = 1 ∷ [];
  rows =
      record {
        name = "default";
        address = "0x1";
        kind = "seed";
        sealed = record { ciphertext = 5 ∷ []; tag = 1 ∷ 2 ∷ []; salt = 2 ∷ [] };
      }
      ∷ [];
}

derived : derive_master toy (2 ∷ []) ≡ some (unary (2 ∷ []))
unfolding derive_master
derived = refl

foreign : IsForeign toy (unary (2 ∷ [])) one_key.rows
foreign = (λ e. absurd (omega (arith, ap length e)), tt)

rotate_master-IsForeign_example :
    (rotate_master toy (2 ∷ []) (λ n. []) one_key
      ≡ some (record { master = unary (2 ∷ []); rows = one_key.rows }, 0))
    × ((n : String)
        → decrypt toy n (record { master = unary (2 ∷ []); rows = one_key.rows }) ≡ none)
rotate_master-IsForeign_example =
    rotate_master-IsForeign toy (2 ∷ []) (λ n. []) one_key (unary (2 ∷ [])) derived foreign
