-- ===== src/Web3/RawTx/Leaves.antt =====
-- What the decoder makes of a prefix that the encoder wrote.
use astra_ai_agent.Prelude.{
  ℕ, suc, ◌+◌, ◌^◌, ◌≤◌, ◌<◌, ◌≡◌, ◌⊎◌, inl, inr, refl, true, some, [], ◌∷◌, ◌++◌, arith, length,
  length-append,
}
use astra_ai_agent.Web3.RawTx.{Bytes, be_bytes, prefix, is_single, rlp_bytes}
use astra_ai_agent.Web3.RawTx.Decode.{Trees, leaf, node, decode, decode_all}
use astra_ai_agent.Web3.RawTx.Numbers.{
  length-be_bytes, be_bytes_pos, split-append, split_long-append,
}

-- The two forms of a prefix.
pub prefix_cases :
    (short_base long_base n : ℕ) {p : Bytes}
    → prefix short_base long_base n ≡ some p
    → ((n < 56) × (p ≡ (short_base + n) ∷ []))
      ⊎ ((56 ≤ n) × (p ≡ (long_base + length (be_bytes n)) ∷ be_bytes n))
unfolding prefix
prefix_cases short_base long_base n h = ground arith

-- A single byte below 0x80 stands for itself.
single_inv : (b : Bytes) → is_single b ≡ true → (x : ℕ) × (b ≡ x ∷ []) × (x < 0x80)
single_inv [] h = cc
single_inv (x ∷ []) h = (x, refl, ground arith)
single_inv (x ∷ y ∷ b) h = cc

-- Any other string of bytes stands behind a prefix.
pub rlp_bytes_inv :
    (b : Bytes) {out : Bytes}
    → rlp_bytes b ≡ some out
    → ((is_single b ≡ true) × (out ≡ b))
      ⊎ ((p : Bytes) × (prefix 0x80 0xB7 (length b) ≡ some p) × (out ≡ p ++ b))
unfolding rlp_bytes
rlp_bytes_inv b h = ground arith

module _ (f : ℕ) (xs rest : Bytes) where
  short_leaf :
      length xs < 56 → decode (suc f) ((0x80 + length xs) ∷ (xs ++ rest)) ≡ some (leaf xs, rest)
  unfolding decode
  short_leaf h = ground (arith, split-append xs rest)

  long_leaf :
      56 ≤ length xs
      → length xs < 256 ^ 8
      → decode
          (suc f)
          ((0xB7 + length (be_bytes (length xs))) ∷ (be_bytes (length xs) ++ xs ++ rest))
        ≡ some (leaf xs, rest)
  unfolding decode
  long_leaf h small =
      ground
        (arith, split_long-append xs rest, length-be_bytes (length xs), be_bytes_pos (length xs))

  decode-single : is_single xs ≡ true → decode (suc f) (xs ++ rest) ≡ some (leaf xs, rest)
  unfolding decode
  decode-single h = let (x, e, lt) = single_inv xs h in rw e (ground arith)

  -- A string of bytes.
  pub decode-rlp_bytes :
      {out : Bytes}
      → rlp_bytes xs ≡ some out
      → length xs < 256 ^ 8
      → decode (suc f) (out ++ rest) ≡ some (leaf xs, rest)
  unfolding rlp_bytes
  decode-rlp_bytes h small = elim (rlp_bytes_inv xs h) [
    | inl (e, same) ↦ rw same (decode-single e)
    | inr (p, e, whole) ↦ elim (prefix_cases 0x80 0xB7 (length xs) e) [
      | inl (lt, short) ↦ rw (whole, short) (short_leaf lt)
      | inr (le, long) ↦ rw (whole, long) (long_leaf le small)
    ]
  ]

  short_list :
      length xs < 56
      → {ts : Trees} → decode_all f xs ≡ some ts
      → decode (suc f) ((0xC0 + length xs) ∷ (xs ++ rest)) ≡ some (node ts, rest)
  unfolding decode
  short_list h d = ground (arith, split-append xs rest)

  long_list :
      56 ≤ length xs
      → length xs < 256 ^ 8
      → {ts : Trees} → decode_all f xs ≡ some ts
      → decode
          (suc f)
          ((0xF7 + length (be_bytes (length xs))) ∷ (be_bytes (length xs) ++ xs ++ rest))
        ≡ some (node ts, rest)
  unfolding decode
  long_list h small d =
      ground
        (arith, split_long-append xs rest, length-be_bytes (length xs), be_bytes_pos (length xs))

  -- A list: the decoder goes on with the payload.
  pub decode-prefix_list :
      {p : Bytes}
      → prefix 0xC0 0xF7 (length xs) ≡ some p
      → length xs < 256 ^ 8
      → {ts : Trees} → decode_all f xs ≡ some ts
      → decode (suc f) (p ++ xs ++ rest) ≡ some (node ts, rest)
  decode-prefix_list e small d = elim (prefix_cases 0xC0 0xF7 (length xs) e) [
    | inl (lt, short) ↦ rw short (short_list lt d)
    | inr (le, long) ↦ rw long (long_list le small d)
  ]

pub length-rlp_bytes : (xs : Bytes) {out : Bytes} → rlp_bytes xs ≡ some out → length xs ≤ length out
length-rlp_bytes xs h = elim (rlp_bytes_inv xs h) [
  | inl (e, same) ↦ rw same (omega arith)
  | inr (p, e, whole) ↦ rw whole (omega (arith, length-append p xs))
]
