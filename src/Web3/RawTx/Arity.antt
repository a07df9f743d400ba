-- ===== src/Web3/RawTx/Arity.antt =====
-- How many fields a signed transaction has. EIP-1559 prescribes twelve: the access list stands
-- between the payload and the signature.
use astra_ai_agent.Prelude.{ℕ, suc, ◌^◌, ◌<◌, ◌≤◌, ◌≡◌, sym, ap, ◌∙◌, some, [], ◌∷◌, arith, length}
use mathlib.Core.List.{append-nil}
use astra_ai_agent.Prelude.Int.{ℤ}
use astra_ai_agent.Web3.RawTx.{
  Bytes, Items, items, nil, cons, Eip1559, build_unsigned_eip1559, append, serialize_eip1559,
}
use astra_ai_agent.Web3.RawTx.Decode.{Trees, node, done, more, need, decode, view_all}
use astra_ai_agent.Web3.RawTx.RoundTrip.{decode-rlp_encode}
use astra_ai_agent.Web3.RawTx.Signed.{
  signed_list, serialize_inv, signed_NoFalse, cons_view, node_view,
}

unfoldable pub fields : Trees → ℕ
fields done = 0
fields (more t ts) = suc (fields ts)

unfoldable pub items_length : Items → ℕ
items_length nil = 0
items_length (cons x xs) = suc (items_length xs)

fields-view_all : (xs : Items) {ts : Trees} → view_all xs ≡ some ts → fields ts ≡ items_length xs
unfolding fields items_length view_all
fields-view_all nil h = ground arith
fields-view_all (cons x xs) {ts = ts} h =
    let (t, us, e, k, w) = cons_view x xs h in ground (arith, fields-view_all xs k)

-- A signed transaction below 2 ^ 64 bytes is the type byte 2 and a list of eleven fields: one fewer
-- than EIP-1559 prescribes, since no access list is written.
pub serialize_eip1559-fields :
    (t : Eip1559) (y r s : ℤ) {item : Items} {raw : Bytes} {f : ℕ}
    → build_unsigned_eip1559 t ≡ some item
    → serialize_eip1559 item y r s ≡ some raw
    → length raw < 256 ^ 8
    → 24 ≤ f
    → (body : Bytes) × (ts : Trees) × (raw ≡ 0x02 ∷ body)
      × (decode f body ≡ some (node ts, []))
      × (fields ts ≡ 11)
unfolding items_length append need
serialize_eip1559-fields t y r s {f = f} b h small enough =
    let (to, pay, body, e, e', g, w) = serialize_inv t y r s b h in
    let bound : length body < 256 ^ 8 = omega (arith, ap length w) in
    let (u, v, d) =
      decode-rlp_encode (items (signed_list t to pay y r s)) [] {f = f}
        (signed_NoFalse t to pay y r s) (omega arith) g bound in
    let (ts, k, n) = node_view (signed_list t to pay y r s) v in
    (
      body,
      ts,
      w,
      ap (decode f) (sym (append-nil body)) ∙ d ∙ ap (λ q. some (q, [])) n,
      fields-view_all (signed_list t to pay y r s) k,
    )
