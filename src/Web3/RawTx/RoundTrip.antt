-- ===== src/Web3/RawTx/RoundTrip.antt =====
-- Decoding what `rlp_encode` wrote.
use astra_ai_agent.Prelude.{
  ℕ, zero, suc, ◌+◌, ◌^◌, ◌≤◌, ◌<◌, ◌≡◌, refl, ap, true, false, Option, none, some, [], ◌∷◌, ◌++◌,
  arith, length, length-append,
}
use astra_ai_agent.Prelude.Int.{pos, negsuc}
use astra_ai_agent.Web3.RawTx.{
  Bytes, Item, Items, int, bool, bytes, str, items, nil, cons, be_bytes, be_digits, prefix,
  rlp_bytes, str_bytes, rlp_item, rlp_items, rlp_encode, ◌>>=◌,
}
use astra_ai_agent.Web3.RawTx.Decode.{
  Tree, Trees, leaf, node, done, more, split, decode, decode_all, view, view_all, need, need_all,
  NoFalse, NoFalseAll,
}
use astra_ai_agent.Web3.RawTx.Leaves.{decode-rlp_bytes, decode-prefix_list, length-rlp_bytes}

-- What a value denotes, and that the decoder finds it and stops behind it.
abbrev Decodes : Item → ℕ → Bytes → Bytes → Type 0
Decodes x f out rest = (t : Tree) × (view x ≡ some t) × (decode f (out ++ rest) ≡ some (t, rest))

decode_all_more :
    (f : ℕ) (bs : Bytes) {t : Tree} {rest : Bytes} {ts : Trees}
    → decode f bs ≡ some (t, rest)
    → decode_all f rest ≡ some ts
    → decode_all (suc f) bs ≡ some (more t ts)
unfolding decode
decode_all_more zero [] h k = ground arith
decode_all_more (suc f) [] h k = ground arith
decode_all_more f (b ∷ bs) h k = ground arith

decode-zero : (f : ℕ) (rest : Bytes) → decode (suc f) (0x80 ∷ rest) ≡ some (leaf [], rest)
unfolding decode split
decode-zero f rest = refl

-- The bytes of a leaf, behind whatever computes them.
bytes-Decodes :
    (b : Bytes) (f : ℕ) {out : Bytes} (rest : Bytes)
    → rlp_bytes b ≡ some out
    → 1 ≤ f
    → length out < 256 ^ 8
    → decode f (out ++ rest) ≡ some (leaf b, rest)
bytes-Decodes b zero rest h n small = absurd (omega arith)
bytes-Decodes b (suc f) rest h n small =
    decode-rlp_bytes f b rest h (omega (arith, length-rlp_bytes b h))

rlp_int :
    (n : ℕ) {out : Bytes}
    → rlp_item (int (pos (suc n))) ≡ some out
    → rlp_bytes (be_bytes (suc n)) ≡ some out
unfolding rlp_item
rlp_int n h = ground arith

int-Decodes :
    (n f : ℕ) {out : Bytes} (rest : Bytes)
    → rlp_item (int (pos n)) ≡ some out
    → 1 ≤ f
    → length out < 256 ^ 8
    → decode f (out ++ rest) ≡ some (leaf (be_bytes n), rest)
int-Decodes n zero rest h k small = absurd (omega arith)
int-Decodes zero (suc f) rest h k small =
    unfold rlp_item be_bytes be_digits in ground (arith, decode-zero f rest)
int-Decodes (suc n) (suc f) rest h k small =
    bytes-Decodes (be_bytes (suc n)) (suc f) rest (rlp_int n h) k small

pub >>=-eq-some {ℓ κ} :
    {A : Type ℓ} {B : Type κ} (m : Option A) (g : A → Option B) {b : B}
    → (m >>= g) ≡ some b
    → (a : A) × (m ≡ some a) × (g a ≡ some b)
>>=-eq-some none g h = cc
>>=-eq-some (some a) g h = (a, refl, h)

-- The parts of an encoded list, and of the values in one.
items_inv :
    (xs : Items) {out : Bytes}
    → rlp_item (items xs) ≡ some out
    → (payload p : Bytes) × (rlp_items xs ≡ some payload)
      × (prefix 0xC0 0xF7 (length payload) ≡ some p)
      × (out ≡ p ++ payload)
unfolding rlp_item
items_inv xs h =
    let (payload, e, k) = >>=-eq-some (rlp_items xs) _ h in
    let (p, e', k') = >>=-eq-some (prefix 0xC0 0xF7 (length payload)) _ k in
    (payload, p, e, e', cc k')

cons_inv :
    (x : Item) (xs : Items) {out : Bytes}
    → rlp_items (cons x xs) ≡ some out
    → (a b : Bytes) × (rlp_item x ≡ some a) × (rlp_items xs ≡ some b) × (out ≡ a ++ b)
unfolding rlp_items
cons_inv x xs h =
    let (a, e, k) = >>=-eq-some (rlp_item x) _ h in
    let (b, e', k') = >>=-eq-some (rlp_items xs) _ k in (a, b, e, e', cc k')

decode_all-nil :
    (f : ℕ) {out : Bytes} → rlp_items nil ≡ some out → decode_all (suc f) out ≡ some done
unfolding rlp_items decode
decode_all-nil f {out = []} h = refl
decode_all-nil f {out = b ∷ bs} h = cc

mutual
  unfolding rlp_item rlp_items view view_all need need_all

  item-Decodes :
      (x : Item) (f : ℕ) {out : Bytes} (rest : Bytes)
      → NoFalse x
      → rlp_item x ≡ some out
      → need x ≤ f
      → length out < 256 ^ 8
      → Decodes x f out rest
  item-Decodes (bool true) f rest nf h n small =
      (leaf (1 ∷ []), refl, bytes-Decodes (1 ∷ []) f rest h n small)
  item-Decodes (bool false) f rest nf h n small = absurd nf
  item-Decodes (int (negsuc _)) f rest nf h n small = cc
  item-Decodes (int (pos m)) f rest nf h n small =
      (leaf (be_bytes m), refl, int-Decodes m f rest h n small)
  item-Decodes (bytes b) f rest nf h n small = (leaf b, refl, bytes-Decodes b f rest h n small)
  item-Decodes (str s) f rest nf h n small =
      let (b, e, k) = >>=-eq-some (str_bytes s) rlp_bytes h in
      (leaf b, rw e, bytes-Decodes b f rest k n small)
  item-Decodes (items xs) zero rest nf h n small = absurd (omega arith)
  item-Decodes (items xs) (suc f) rest nf h n small =
      let (payload, p, e, e', whole) = items_inv xs h in
      let bound : length payload < 256 ^ 8 =
        omega (arith, length-append p payload, ap length whole) in
      let (ts, v, d) = items-Decodes xs f nf e (omega arith) bound in
      (node ts, rw v, rw whole (decode-prefix_list f payload rest e' bound d))

  items-Decodes :
      (xs : Items) (f : ℕ) {out : Bytes}
      → NoFalseAll xs
      → rlp_items xs ≡ some out
      → need_all xs ≤ f
      → length out < 256 ^ 8
      → (ts : Trees) × (view_all xs ≡ some ts) × (decode_all f out ≡ some ts)
  items-Decodes nil zero nf h n small = absurd (omega arith)
  items-Decodes nil (suc f) nf h n small = (done, refl, decode_all-nil f h)
  items-Decodes (cons x xs) zero nf h n small = absurd (omega arith)
  items-Decodes (cons x xs) (suc f) nf h n small =
      let (a, b, e, e', whole) = cons_inv x xs h in
      let size = ap length whole in
      let (t, v, d) =
        item-Decodes x f b nf.0 e (omega arith) (omega (arith, length-append a b, size)) in
      let (ts, v', d') =
        items-Decodes xs f nf.1 e' (omega arith) (omega (arith, length-append a b, size)) in
      (more t ts, rw (v, v'), rw whole (decode_all_more f (a ++ b) d d'))

-- Decoding inverts encoding: whatever `rlp_encode` returns for a value without `False` inside, below
-- 2 ^ 64 bytes, is decoded to what the value denotes, with the bytes behind it left over.
pub decode-rlp_encode :
    (x : Item) (rest : Bytes) {out : Bytes} {f : ℕ}
    → NoFalse x
    → need x ≤ f
    → rlp_encode x ≡ some out
    → length out < 256 ^ 8
    → (t : Tree) × (view x ≡ some t) × (decode f (out ++ rest) ≡ some (t, rest))
unfolding rlp_encode
decode-rlp_encode x rest {f = f} nf n h small = item-Decodes x f rest nf h n small

-- Two values without `False` inside that have one encoding, below 2 ^ 64 bytes, denote one and the
-- same tree.
pub rlp_encode_injective :
    (x y : Item) {out : Bytes}
    → NoFalse x
    → NoFalse y
    → rlp_encode x ≡ some out
    → rlp_encode y ≡ some out
    → length out < 256 ^ 8
    → (t : Tree) × (view x ≡ some t) × (view y ≡ some t)
rlp_encode_injective x y {out = out} nx ny hx hy small =
    let f = need x + need y in
    let (t, v, d) = decode-rlp_encode x [] {f = f} nx (omega arith) hx small in
    let (u, w, e) = decode-rlp_encode y [] {f = f} ny (omega arith) hy small in (t, v, cc)
