-- ===== src/Web3/RawTx/Signed.antt =====
-- The signed serialization of a transaction determines the transaction and its signature.
use astra_ai_agent.Prelude.{◌^◌, ◌<◌, ◌≡◌, sym, ap, ◌∙◌, some, ◌∷◌, arith, length}
use astra_ai_agent.Prelude.Int.{ℤ, pos, negsuc}
use astra_ai_agent.Web3.RawTx.{
  Bytes, Item, Items, int, bytes, items, nil, cons, be_bytes, rlp_encode, Eip1559, to_field,
  data_field, eip1559_list, build_unsigned_eip1559, append, serialize_eip1559,
}
use astra_ai_agent.Web3.RawTx.Decode.{Tree, Trees, node, more, from_be, NoFalse, view, view_all}
use astra_ai_agent.Web3.RawTx.Numbers.{from_be-be_bytes}
use astra_ai_agent.Web3.RawTx.Recipient.Canonical.{
  IsAddress, IsPayload, to_field-injective, data_field-injective,
}
use astra_ai_agent.Web3.RawTx.RoundTrip.{>>=-eq-some, rlp_encode_injective}

-- Two lists whose values are integers and strings of bytes at the same places.
abbrev SameShape : Items → Items → Type 0
SameShape nil nil = Unit
SameShape (cons (int _) xs) (cons (int _) ys) = SameShape xs ys
SameShape (cons (bytes _) xs) (cons (bytes _) ys) = SameShape xs ys
SameShape _ _ = ⊥

-- The same lists, value by value.
abbrev pub SameFields : Items → Items → Type 0
SameFields nil nil = Unit
SameFields (cons (int a) xs) (cons (int b) ys) = (a ≡ b) × SameFields xs ys
SameFields (cons (bytes a) xs) (cons (bytes b) ys) = (a ≡ b) × SameFields xs ys
SameFields _ _ = ⊥

int_view : (a b : ℤ) {t : Tree} → view (int a) ≡ some t → view (int b) ≡ some t → a ≡ b
unfolding view
int_view (pos m) (pos n) p q =
    let digits : be_bytes m ≡ be_bytes n = cc in
    ap pos (sym (from_be-be_bytes m) ∙ ap from_be digits ∙ from_be-be_bytes n)
int_view (pos m) (negsuc n) p q = cc
int_view (negsuc m) b p q = cc

bytes_view : (a b : Bytes) {t : Tree} → view (bytes a) ≡ some t → view (bytes b) ≡ some t → a ≡ b
unfolding view
bytes_view a b p q = cc

pub cons_view :
    (x : Item) (xs : Items) {u : Trees}
    → view_all (cons x xs) ≡ some u
    → (t : Tree) × (ts : Trees) × (view x ≡ some t) × (view_all xs ≡ some ts) × (u ≡ more t ts)
unfolding view_all
cons_view x xs h =
    let (t, e, k) = >>=-eq-some (view x) _ h in
    let (ts, e', k') = >>=-eq-some (view_all xs) _ k in (t, ts, e, e', cc k')

SameFields-of_view :
    (xs ys : Items) {u : Trees}
    → SameShape xs ys
    → view_all xs ≡ some u
    → view_all ys ≡ some u
    → SameFields xs ys
SameFields-of_view nil nil sh p q = tt
SameFields-of_view (cons (int a) xs) (cons (int b) ys) sh p q =
    let (t, ts, e, k, w) = cons_view (int a) xs p in
    let (t', ts', e', k', w') = cons_view (int b) ys q in
    (int_view a b e (cc), SameFields-of_view xs ys sh k (cc))
SameFields-of_view (cons (bytes a) xs) (cons (bytes b) ys) sh p q =
    let (t, ts, e, k, w) = cons_view (bytes a) xs p in
    let (t', ts', e', k', w') = cons_view (bytes b) ys q in
    (bytes_view a b e (cc), SameFields-of_view xs ys sh k (cc))
SameFields-of_view _ _ sh p q = absurd sh

-- A recipient and a payload that are written in one way: an address of 40 digits, and digits, of lower
-- case, behind 0x.
abbrev pub IsCanonical : Eip1559 → Type 0
IsCanonical t = IsAddress t.to × IsPayload t.data_hex

-- Two transactions with the same fields.
pub record SameTx (t u : Eip1559) : Type 0 where
  pub chain_id : t.chain_id ≡ u.chain_id
  pub nonce : t.nonce ≡ u.nonce
  pub max_priority_fee : t.max_priority_fee ≡ u.max_priority_fee
  pub max_fee : t.max_fee ≡ u.max_fee
  pub gas_limit : t.gas_limit ≡ u.gas_limit
  pub to : t.to ≡ u.to
  pub value_wei : t.value_wei ≡ u.value_wei
  pub data_hex : t.data_hex ≡ u.data_hex

-- The list of a transaction.
build_inv :
    (t : Eip1559) {item : Items}
    → build_unsigned_eip1559 t ≡ some item
    → (to payload : Bytes) × (to_field t.to ≡ some to)
      × (data_field t.data_hex ≡ some payload)
      × (item ≡ eip1559_list t to payload)
unfolding build_unsigned_eip1559
build_inv t h =
    let (to, e, k) = >>=-eq-some (to_field t.to) _ h in
    let (payload, e', k') = >>=-eq-some (data_field t.data_hex) _ k in (to, payload, e, e', cc k')

-- What follows the type byte of a signed transaction.
abbrev pub signed_list : Eip1559 → Bytes → Bytes → ℤ → ℤ → ℤ → Items
signed_list t to payload y r s =
    append (eip1559_list t to payload) (cons (int y) (cons (int r) (cons (int s) nil)))

pub serialize_inv :
    (t : Eip1559) {item : Items} (y r s : ℤ) {raw : Bytes}
    → build_unsigned_eip1559 t ≡ some item
    → serialize_eip1559 item y r s ≡ some raw
    → (to payload body : Bytes) × (to_field t.to ≡ some to)
      × (data_field t.data_hex ≡ some payload)
      × (rlp_encode (items (signed_list t to payload y r s)) ≡ some body)
      × (raw ≡ 0x02 ∷ body)
unfolding serialize_eip1559
serialize_inv t {item = item} y r s b h =
    let (to, payload, e, e', same) = build_inv t b in
    let (body, k, w) =
      >>=-eq-some
        (rlp_encode (items (append item (cons (int y) (cons (int r) (cons (int s) nil))))))
        (λ b. some (0x02 ∷ b)) h in
    (to, payload, body, e, e', rw (← same) k, cc w)

pub signed_NoFalse :
    (t : Eip1559) (to payload : Bytes) (y r s : ℤ)
    → NoFalse (items (signed_list t to payload y r s))
unfolding append
signed_NoFalse t to payload y r s = omega arith

pub node_view :
    (xs : Items) {t : Tree}
    → view (items xs) ≡ some t
    → (ts : Trees) × (view_all xs ≡ some ts) × (t ≡ node ts)
unfolding view
node_view xs h = let (ts, e, k) = >>=-eq-some (view_all xs) _ h in (ts, e, cc k)

-- One encoding of two lists of one shape.
SameFields-of_encode :
    (xs ys : Items) {out : Bytes}
    → NoFalse (items xs)
    → NoFalse (items ys)
    → SameShape xs ys
    → rlp_encode (items xs) ≡ some out
    → rlp_encode (items ys) ≡ some out
    → length out < 256 ^ 8
    → SameFields xs ys
SameFields-of_encode xs ys nx ny sh g g' small =
    let (t, v, v') = rlp_encode_injective (items xs) (items ys) nx ny g g' small in
    let (ts, e, w) = node_view xs v in
    let (ts', e', w') = node_view ys v' in SameFields-of_view xs ys sh e (cc)

-- Two signed serializations that agree, below 2 ^ 64 bytes, of transactions whose recipients are
-- addresses of 40 digits of lower case behind 0x, and whose payloads are such digits behind 0x, have
-- the same transaction, field by field, and the same signature behind them.
pub serialize_eip1559_injective :
    (t u : Eip1559) (y r s y' r' s' : ℤ) {item item' : Items} {raw : Bytes}
    → IsCanonical t
    → IsCanonical u
    → build_unsigned_eip1559 t ≡ some item
    → build_unsigned_eip1559 u ≡ some item'
    → serialize_eip1559 item y r s ≡ some raw
    → serialize_eip1559 item' y' r' s' ≡ some raw
    → length raw < 256 ^ 8
    → SameTx t u × (y ≡ y') × (r ≡ r') × (s ≡ s')
unfolding append
serialize_eip1559_injective t u y r s y' r' s' can can' b c h k small =
    let (to, pay, body, e, f, g, w) = serialize_inv t y r s b h in
    let (to', pay', body', e', f', g', w') = serialize_inv u y' r' s' c k in
    let same : body' ≡ body = cc in
    let bound : length body < 256 ^ 8 = omega (arith, ap length w) in
    let fields =
      SameFields-of_encode (signed_list t to pay y r s) (signed_list u to' pay' y' r' s')
        (signed_NoFalse t to pay y r s) (signed_NoFalse u to' pay' y' r' s') (omega arith) g
        (g' ∙ ap some same) bound in
    let recipient : to' ≡ to = ground (arith, fields) in
    let payload : pay' ≡ pay = ground (arith, fields) in
    let same_to : t.to ≡ u.to =
      to_field-injective t.to u.to can.0 can'.0 e (e' ∙ ap some recipient) in
    let same_data : t.data_hex ≡ u.data_hex =
      data_field-injective t.data_hex u.data_hex can.1 can'.1 f (f' ∙ ap some payload) in
    ground (arith, fields, same_to, same_data)
