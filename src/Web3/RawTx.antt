-- ===== src/Web3/RawTx.antt =====
-- astra/web3/raw_tx.py: the RLP encoder, and the construction and serialization of transactions. A
-- `bytes` value is the list of its bytes. An error (a negative integer, a malformed hexadecimal
-- text, a byte above 255) is `none`. The hash is a parameter.
pub mod Decode
pub mod Numbers
pub mod Leaves
pub mod RoundTrip
pub mod Recipient
pub mod Signed
pub mod Arity
mod Tests
use astra_ai_agent.Prelude.{
  ℕ, zero, suc, ◌+◌, ◌-◌, ◌*◌, ◌/◌, ◌%◌, Bool, true, false, not, ◌&&◌, ◌||◌, Option, none, some,
  List, [], ◌∷◌, ◌++◌, ltb, leb, ◌==◌, length, if◌then◌else◌,
}
use astra_ai_agent.Prelude.Int.{ℤ, pos, negsuc, ◌+ℤ◌}
use astra_ai_agent.Prelude.Text.{Text, codes, text_eq}

abbrev pub Bytes : Type 0
Bytes = List ℕ

-- The Python values that `_rlp_item` accepts. `items` is a list or a tuple.
mutual
  pub data Item : Type 0 where
    int : ℤ → Item
    bool : Bool → Item
    bytes : Bytes → Item
    str : Text → Item
    items : Items → Item

  pub data Items : Type 0 where
    nil : Items
    cons : Item → Items → Items

infixl 5 ◌>>=◌
abbrev pub ◌>>=◌ {ℓ κ} : {A : Type ℓ} {B : Type κ} → Option A → (A → Option B) → Option B
none >>= f = none
some a >>= f = f a

-- `n.to_bytes((n.bit_length() + 7) // 8, "big")`: the base 256 digits of `n`, with no leading zero.
-- The number itself is fuel enough, since each round divides it.
be_digits : ℕ → ℕ → Bytes
be_digits zero n = []
be_digits (suc f) n =
    let more = be_digits f (n / 256) ++ (n % 256) ∷ [] in if n == 0 then [] else more

unfoldable pub be_bytes : ℕ → Bytes
unfolding be_digits
be_bytes n = be_digits n n

-- `_prefix`; `bytes([k])` raises above 255.
unfoldable pub prefix : ℕ → ℕ → ℕ → Option Bytes
prefix short_base long_base n =
    if ltb n 56
    then some ((short_base + n) ∷ [])
    else (let ln = be_bytes n in
        if ltb (long_base + length ln) 256 then some ((long_base + length ln) ∷ ln) else none)

-- `n == 1 and b[0] < 0x80`
abbrev pub is_single : Bytes → Bool
is_single (x ∷ []) = ltb x 0x80
is_single _ = false

unfoldable pub rlp_bytes : Bytes → Option Bytes
rlp_bytes b = if is_single b then some b else (do p ← prefix 0x80 0xB7 (length b); some (p ++ b))

hex_digit : ℕ → Option ℕ
hex_digit c =
    if leb b'0' c && leb c b'9'
    then some (c - b'0')
    else if leb b'a' c && leb c b'f'
    then some (c - b'a' + 10)
    else if leb b'A' c && leb c b'F'
    then some (c - b'A' + 10)
    else none

abbrev is_blank : ℕ → Bool
is_blank c = (leb 9 c && leb c 13) || (c == 32)

-- `bytes.fromhex`: pairs of digits, with ASCII white space allowed between the pairs. `high` holds
-- the first digit of a pair that is begun.
from_hex_go : Option ℕ → Text → Option Bytes
from_hex_go none [] = some []
from_hex_go (some _) [] = none
from_hex_go none (c ∷ s) =
    if is_blank c then from_hex_go none s else (do h ← hex_digit c; from_hex_go (some h) s)
from_hex_go (some h) (c ∷ s) = do
  l ← hex_digit c
  rest ← from_hex_go none s
  some ((h * 16 + l) ∷ rest)

unfoldable pub from_hex : Text → Option Bytes
unfolding from_hex_go hex_digit
from_hex s = from_hex_go none s

-- `s[2:]`
unfoldable pub drop_two : Text → Text
drop_two (_ ∷ _ ∷ s) = s
drop_two _ = []

-- `s.startswith("0x")`
unfoldable pub starts_0x : Text → Bool
starts_0x (a ∷ b ∷ _) = (a == b'0') && (b == b'x')
starts_0x _ = false

-- The `str` case: a hexadecimal text, or the ASCII text itself.
unfoldable pub str_bytes : Text → Option Bytes
str_bytes s = if starts_0x s then from_hex (drop_two s) else some s

unfoldable mutual
  unfolding rlp_bytes str_bytes

  pub rlp_item : Item → Option Bytes
  rlp_item (bool true) = rlp_bytes (0x01 ∷ [])
  rlp_item (bool false) = rlp_bytes (0x80 ∷ [])
  rlp_item (int (negsuc _)) = none
  rlp_item (int (pos n)) = if n == 0 then some (0x80 ∷ []) else rlp_bytes (be_bytes n)
  rlp_item (bytes b) = rlp_bytes b
  rlp_item (str s) = do b ← str_bytes s; rlp_bytes b
  rlp_item (items xs) = do
    payload ← rlp_items xs
    p ← prefix 0xC0 0xF7 (length payload)
    some (p ++ payload)

  -- `b"".join(_rlp_item(x) for x in b)`
  pub rlp_items : Items → Option Bytes
  rlp_items nil = some []
  rlp_items (cons x xs) = do a ← rlp_item x; rest ← rlp_items xs; some (a ++ rest)

unfoldable pub rlp_encode : Item → Option Bytes
unfolding rlp_item rlp_items
rlp_encode x = rlp_item x

abbrev pub zero_addr : Text
zero_addr = codes "0x0000000000000000000000000000000000000000"

abbrev nonempty : Text → Bool
nonempty [] = false
nonempty (_ ∷ _) = true

-- `bytes.fromhex(to[2:]) if to and to != ZERO_ADDR else b""`
unfoldable pub to_field : Text → Option Bytes
to_field to = if nonempty to && not (text_eq to zero_addr) then from_hex (drop_two to) else some []

-- `bytes.fromhex(data_hex[2:]) if data_hex else b""`
unfoldable pub data_field : Text → Option Bytes
data_field s = if nonempty s then from_hex (drop_two s) else some []

-- The keyword arguments of `build_unsigned_eip1559`.
pub record Eip1559 : Type 0 where
  pub chain_id : ℤ
  pub nonce : ℤ
  pub max_priority_fee : ℤ
  pub max_fee : ℤ
  pub gas_limit : ℤ
  pub to : Text
  pub value_wei : ℤ
  pub data_hex : Text

-- The list of the eight fields.
abbrev pub eip1559_list : Eip1559 → Bytes → Bytes → Items
eip1559_list t to payload = cons (int t.chain_id) (
    cons (int t.nonce) (
      cons (int t.max_priority_fee) (
        cons (int t.max_fee) (
          cons (int t.gas_limit)
            (cons (bytes to) (cons (int t.value_wei) (cons (bytes payload) nil)))))))

unfoldable pub build_unsigned_eip1559 : Eip1559 → Option Items
build_unsigned_eip1559 t = do
  to ← to_field t.to
  payload ← data_field t.data_hex
  some (eip1559_list t to payload)

-- `item + more`
unfoldable pub append : Items → Items → Items
append nil ys = ys
append (cons x xs) ys = cons x (append xs ys)

-- What `signing_hash_eip1559` hashes.
unfoldable pub signing_payload : Items → Option Bytes
signing_payload item = do body ← rlp_encode (items item); some (0x02 ∷ body)

unfoldable pub signing_hash_eip1559 : {H : Type 0} → (Bytes → H) → Items → Option H
signing_hash_eip1559 keccak item = do payload ← signing_payload item; some (keccak payload)

unfoldable pub serialize_eip1559 : Items → ℤ → ℤ → ℤ → Option Bytes
serialize_eip1559 item y_parity r s = do
  body ← rlp_encode (items (append item (cons (int y_parity) (cons (int r) (cons (int s) nil)))))
  some (0x02 ∷ body)

-- The keyword arguments of `build_unsigned_legacy`.
pub record Legacy : Type 0 where
  pub nonce : ℤ
  pub gas_price : ℤ
  pub gas_limit : ℤ
  pub to : Text
  pub value_wei : ℤ
  pub data_hex : Text

unfoldable pub build_unsigned_legacy : Legacy → Option Items
build_unsigned_legacy t = do
  to ← to_field t.to
  payload ← data_field t.data_hex
  some (
      cons (int t.nonce) (
        cons (int t.gas_price) (
          cons (int t.gas_limit)
            (cons (bytes to) (cons (int t.value_wei) (cons (bytes payload) nil))))))

-- What `signing_hash_legacy` hashes: `item + [chain_id, 0, 0]`.
unfoldable pub signing_payload_legacy : Items → ℤ → Option Bytes
signing_payload_legacy item chain_id =
    rlp_encode
      (items (append item (cons (int chain_id) (cons (int (pos 0)) (cons (int (pos 0)) nil)))))

-- `v = chain_id * 2 + 35 + y_parity`
unfoldable pub serialize_legacy : Items → ℤ → ℤ → ℤ → ℤ → Option Bytes
serialize_legacy item chain_id y_parity r s =
    let v = chain_id +ℤ chain_id +ℤ pos 35 +ℤ y_parity in
    rlp_encode (items (append item (cons (int v) (cons (int r) (cons (int s) nil)))))
