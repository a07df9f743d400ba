-- ===== src/Web3/Keystore/Sealing.antt =====
-- What is sealed is opened again.
use astra_ai_agent.Prelude.{
  ℕ, zero, suc, ◌+◌, ◌*◌, ◌/◌, ◌%◌, ◌^◌, ◌≤◌, ◌<◌, ◌≡◌, ◌⊎◌, inl, inr, refl, sym, ap, ◌∙◌, some, [],
  ◌∷◌, ◌++◌, length, length-append, take, drop, take-append-drop, length-take, length-drop, arith,
  tests, leb, Bool-cases,
}
use astra_ai_agent.Prelude.Text.{Text, text_eq_refl}
use astra_ai_agent.Web3.RawTx.{Bytes}
use astra_ai_agent.Web3.Keystore.{Crypto, xor, xor_bytes, xor_blocks, xor_stream, seal, unseal}

abbrev pub AreBytes : Bytes → Type 0
AreBytes [] = Unit
AreBytes (b ∷ bs) = (b < 256) × AreBytes bs

-- What the store relies on: a block of the keystream has 32 bytes, and UTF-8 is undone.
pub record Laws (crypto : Crypto) : Type 0 where
  pub block : (key : Bytes) (i : ℕ) → length (crypto.keystream key i) ≡ 32
  pub bytes : (s : Text) → AreBytes (crypto.encode s)
  pub decoded : (s : Text) → crypto.decode (crypto.encode s) ≡ some s

-- Twice the same mask is no mask.
xor-xor : (bits a b : ℕ) → a < 2 ^ bits → xor bits (xor bits a b) b ≡ a
unfolding xor
xor-xor zero a b h = omega arith
xor-xor (suc bits) a b h =
    let half : a / 2 < 2 ^ bits = omega arith in
    let rest = xor-xor bits (a / 2) (b / 2) half in
    let low : ((a + b) % 2 + 2 * xor bits (a / 2) (b / 2)) / 2 ≡ xor bits (a / 2) (b / 2) =
      omega arith in
    rw (low, rest) (omega arith)

length-xor_bytes : (c s : Bytes) → length c ≤ length s → length (xor_bytes c s) ≡ length c
unfolding xor_bytes
length-xor_bytes [] s h = refl
length-xor_bytes (a ∷ c) [] h = absurd (omega arith)
length-xor_bytes (a ∷ c) (b ∷ s) h = ap suc (length-xor_bytes c s (omega arith))

xor_bytes-xor_bytes :
    (c s : Bytes) → AreBytes c → length c ≤ length s → xor_bytes (xor_bytes c s) s ≡ c
unfolding xor_bytes
xor_bytes-xor_bytes [] s bs h = refl
xor_bytes-xor_bytes (a ∷ c) [] bs h = absurd (omega arith)
xor_bytes-xor_bytes (a ∷ c) (b ∷ s) bs h =
    rw (xor-xor 8 a b bs.0, xor_bytes-xor_bytes c s bs.1 (omega arith)) refl

AreBytes-take : (n : ℕ) (xs : Bytes) → AreBytes xs → AreBytes (take n xs)
AreBytes-take zero xs h = tt
AreBytes-take (suc n) [] h = tt
AreBytes-take (suc n) (x ∷ xs) h = (h.0, AreBytes-take n xs h.1)

AreBytes-drop : (n : ℕ) (xs : Bytes) → AreBytes xs → AreBytes (drop n xs)
AreBytes-drop zero xs h = h
AreBytes-drop (suc n) [] h = tt
AreBytes-drop (suc n) (x ∷ xs) h = AreBytes-drop n xs h.1

-- A chunk that is full, or the last one.
split_again :
    (n : ℕ) (z rest : Bytes)
    → (length z ≡ n) ⊎ ((length z ≤ n) × (rest ≡ []))
    → (take n (z ++ rest) ≡ z) × (drop n (z ++ rest) ≡ rest)
split_again zero [] rest h = (refl, refl)
split_again zero (x ∷ z) rest (inl h) = absurd (omega arith)
split_again zero (x ∷ z) rest (inr h) = absurd (omega arith)
split_again (suc n) [] rest (inl h) = absurd (omega arith)
split_again (suc n) [] rest (inr (h, e)) = rw e (refl, refl)
split_again (suc n) (x ∷ z) rest (inl h) =
    let (t, d) = split_again n z rest (inl (omega arith)) in (ap (λ y. x ∷ y) t, d)
split_again (suc n) (x ∷ z) rest (inr (h, e)) =
    let (t, d) = split_again n z rest (inr (omega arith, e)) in (ap (λ y. x ∷ y) t, d)

drop_all : (n : ℕ) (xs : Bytes) → length xs ≤ n → drop n xs ≡ []
drop_all zero [] h = refl
drop_all zero (x ∷ xs) h = absurd (omega arith)
drop_all (suc n) [] h = refl
drop_all (suc n) (x ∷ xs) h = drop_all n xs (omega arith)

module _ (stream : ℕ → Bytes) (block : (i : ℕ) → length (stream i) ≡ 32) where
  no_blocks : (f i : ℕ) → xor_blocks stream f i [] ≡ []
  unfolding xor_blocks
  no_blocks zero i = refl
  no_blocks (suc f) i = refl

  blocks_step :
      (f i : ℕ) (w : Bytes)
      → xor_blocks stream (suc f) i w
        ≡ xor_bytes (take 32 w) (stream i) ++ xor_blocks stream f (suc i) (drop 32 w)
  unfolding xor_blocks xor_bytes
  blocks_step f i [] = sym (no_blocks f (suc i))
  blocks_step f i (x ∷ w) = refl

  chunk_length : (i : ℕ) (w : Bytes) → length (take 32 w) ≤ length (stream i)
  chunk_length i w = omega (arith, block i, length-take 32 w)

  length-xor_blocks :
      (f i : ℕ) (p : Bytes) → length p ≤ f → length (xor_blocks stream f i p) ≡ length p
  length-xor_blocks zero i [] h = ap length (no_blocks zero i)
  length-xor_blocks zero i (x ∷ p) h = absurd (omega arith)
  length-xor_blocks (suc f) i [] h = ap length (no_blocks (suc f) i)
  length-xor_blocks (suc f) i (x ∷ p) h =
      let w = x ∷ p in
      ap length (blocks_step f i w)
      ∙ omega (
        arith,
        length-append (xor_bytes (take 32 w) (stream i)) (xor_blocks stream f (suc i) (drop 32 w)),
        length-xor_bytes (take 32 w) (stream i) (chunk_length i w),
        length-xor_blocks f (suc i) (drop 32 w) (omega (arith, length-drop 32 w)),
        length-drop 32 w,
        length-take 32 w,
      )

  rest_empty :
      (f i : ℕ) (w : Bytes)
      → (length (take 32 w) ≡ 32)
        ⊎ ((length (take 32 w) ≤ 32) × (xor_blocks stream f (suc i) (drop 32 w) ≡ []))
  rest_empty f i w = elim (Bool-cases (leb 32 (length w))) [
    | inl h ↦ inl (omega (tests, h, length-take 32 w))
    | inr h ↦
        let short : length w ≤ 32 = ground arith in
        inr (omega (arith, short, length-take 32 w), rw (drop_all 32 w short) (no_blocks f (suc i)))
  ]

  blocks-blocks :
      (f i : ℕ) (p : Bytes)
      → length p ≤ f
      → AreBytes p
      → xor_blocks stream f i (xor_blocks stream f i p) ≡ p
  blocks-blocks zero i [] h bs = rw (no_blocks zero i) (no_blocks zero i)
  blocks-blocks zero i (x ∷ p) h bs = absurd (omega arith)
  blocks-blocks (suc f) i [] h bs = rw (no_blocks (suc f) i) (no_blocks (suc f) i)
  blocks-blocks (suc f) i (x ∷ p) h bs =
      let w = x ∷ p in
      let z = xor_bytes (take 32 w) (stream i) in
      let rest = xor_blocks stream f (suc i) (drop 32 w) in
      let size = length-xor_bytes (take 32 w) (stream i) (chunk_length i w) in
      let (t, d) = split_again 32 z rest (rw size (rest_empty f i w)) in
      let again =
        blocks-blocks f (suc i) (drop 32 w) (omega (arith, length-drop 32 w))
          (AreBytes-drop 32 w bs) in
      let back =
        xor_bytes-xor_bytes (take 32 w) (stream i) (AreBytes-take 32 w bs) (chunk_length i w) in
      ap (xor_blocks stream (suc f) i) (blocks_step f i w)
      ∙ blocks_step f i (z ++ rest)
      ∙ rw (t, d, again, back) (take-append-drop 32 w)

  stream-stream : (p : Bytes) → AreBytes p → xor_stream stream (xor_stream stream p) ≡ p
  stream-stream p bs =
      rw (length-xor_blocks (length p) 0 p (omega arith))
        (blocks-blocks (length p) 0 p (omega arith) bs)

-- What was sealed under a master key is opened again under it, with any salt.
pub unseal-seal :
    (crypto : Crypto)
    → Laws crypto
    → (master salt : Bytes) (secret : Text)
    → unseal crypto master (seal crypto master salt secret) ≡ some secret
unfolding unseal seal
unseal-seal crypto laws master salt secret =
    let key = crypto.derive master salt in
    let plain = crypto.encode secret in
    rw
      (
        text_eq_refl (crypto.mac key (xor_stream (crypto.keystream key) plain)),
        stream-stream (crypto.keystream key) (laws.block key) plain (laws.bytes secret),
      )
      (laws.decoded secret)
