-- ===== src/Web3/RawTx/Tests.antt =====
-- Runs of the encoder, and its theorems at concrete transactions.
use astra_ai_agent.Prelude.{
  ◌^◌, ◌<◌, ◌≡◌, ◌≢◌, refl, false, none, some, [], ◌∷◌, ◌++◌, arith, length,
}
use astra_ai_agent.Prelude.Int.{pos, negsuc}
use astra_ai_agent.Prelude.Text.{Text, codes, text_eq, text_eq_iff}
use astra_ai_agent.Web3.Policy.{norm}
use astra_ai_agent.Web3.RawTx.{
  Bytes, Item, Items, int, bool, bytes, str, items, nil, cons, be_bytes, prefix, rlp_encode,
  from_hex, drop_two, starts_0x, to_field, data_field, Eip1559, build_unsigned_eip1559, append,
  serialize_eip1559, zero_addr,
}
use astra_ai_agent.Web3.RawTx.Decode.{Tree, Trees, node, need, decode, view}
use astra_ai_agent.Web3.RawTx.RoundTrip.{decode-rlp_encode}
use astra_ai_agent.Web3.RawTx.Recipient.{to_field-length}
use astra_ai_agent.Web3.RawTx.Arity.{fields, serialize_eip1559-fields}
use astra_ai_agent.Web3.RawTx.Signed.{IsCanonical, SameTx, serialize_eip1559_injective}

abbrev sample : Item
sample = items (
    cons (int (pos 1024))
      (cons (int (pos 0)) (cons (bytes (codes "dog")) (cons (str (codes "0x0F")) nil))))

abbrev sample_bytes : Bytes
sample_bytes = 0xC9 ∷ 0x82 ∷ 0x04 ∷ 0x00 ∷ 0x80 ∷ 0x83 ∷ 0x64 ∷ 0x6F ∷ 0x67 ∷ 0x0F ∷ []

sample-encoded : rlp_encode sample ≡ some sample_bytes
unfolding rlp_encode be_bytes prefix from_hex drop_two starts_0x
sample-encoded = refl

-- `False` comes out as the byte 0x80 behind a prefix, and not as 0.
false-encoded : rlp_encode (bool false) ≡ some (0x81 ∷ 0x80 ∷ [])
unfolding rlp_encode prefix
false-encoded = refl

negative-refused : rlp_encode (items (cons (int (negsuc 0)) nil)) ≡ none
unfolding rlp_encode
negative-refused = refl

decode-rlp_encode_example :
    (t : Tree) × (view sample ≡ some t) × (decode 10 (sample_bytes ++ 7 ∷ []) ≡ some (t, 7 ∷ []))
unfolding need
decode-rlp_encode_example =
    decode-rlp_encode sample (7 ∷ []) {f = 10} (omega arith) (omega arith) sample-encoded
      (omega arith)

abbrev digits : Text
digits = codes "AbCdEf0123456789aBcDeF0123456789abcdef01"

digits_nonzero : b'0' ∷ b'x' ∷ digits ≢ zero_addr
unfolding text_eq
digits_nonzero e = cc ((text_eq_iff (b'0' ∷ b'x' ∷ digits) zero_addr).1 e)

to_field-length_example :
    ((length (norm (b'0' ∷ b'x' ∷ digits)) ≡ 40)
      × (b : Bytes) × (to_field (b'0' ∷ b'x' ∷ digits) ≡ some b)
      × (length b ≡ 20))
    × ((length (norm digits) ≡ 40) × (b : Bytes) × (to_field digits ≡ some b) × (length b ≡ 19))
to_field-length_example = to_field-length digits (omega arith) refl digits_nonzero

abbrev lower_digits : Text
lower_digits = codes "abcdef0123456789abcdef0123456789abcdef01"

abbrev transfer : Eip1559
transfer = record {
  chain_id = pos 1;
  nonce = pos 7;
  max_priority_fee = pos 1500000000;
  max_fee = pos 30000000000;
  gas_limit = pos 21000;
  to = b'0' ∷ b'x' ∷ lower_digits;
  value_wei = pos 1000000000000000000;
  data_hex = codes "0xa9";
}

built : (item : Items) × (build_unsigned_eip1559 transfer ≡ some item)
unfolding build_unsigned_eip1559 to_field data_field from_hex drop_two text_eq
built = (_, refl)

serialized :
    (raw : Bytes) × (serialize_eip1559 built.0 (pos 1) (pos 12345) (pos 67890) ≡ some raw)
    × (length raw < 256 ^ 8)
unfolding built serialize_eip1559 rlp_encode be_bytes prefix append
serialized = (_, refl, omega arith)

transfer-IsCanonical : IsCanonical transfer
transfer-IsCanonical = ((lower_digits, refl, omega arith, refl), (codes "a9", refl, omega arith))

serialize_eip1559_injective_example :
    SameTx transfer transfer × (pos 1 ≡ pos 1) × (pos 12345 ≡ pos 12345) × (pos 67890 ≡ pos 67890)
serialize_eip1559_injective_example =
    serialize_eip1559_injective transfer transfer (pos 1) (pos 12345) (pos 67890) (pos 1)
      (pos 12345) (pos 67890) transfer-IsCanonical transfer-IsCanonical built.1 built.1 serialized.1
      serialized.1 serialized.2

serialize_eip1559-fields_example :
    (body : Bytes) × (ts : Trees) × (serialized.0 ≡ 0x02 ∷ body)
    × (decode 24 body ≡ some (node ts, []))
    × (fields ts ≡ 11)
serialize_eip1559-fields_example =
    serialize_eip1559-fields transfer (pos 1) (pos 12345) (pos 67890) {f = 24} built.1 serialized.1
      serialized.2 (omega arith)
