-- ===== src/Web3/RawTx/Decode.antt =====
-- A decoder of RLP, written from the format and not from the encoder: the specification that
-- `rlp_encode` is held against.
use astra_ai_agent.Prelude.{
  ℕ, zero, suc, ◌+◌, ◌-◌, ◌*◌, Option, none, some, [], ◌∷◌, ltb, if◌then◌else◌, true, false,
}
use astra_ai_agent.Prelude.Int.{pos, negsuc}
use astra_ai_agent.Web3.RawTx.{
  Bytes, Item, Items, int, bool, bytes, str, items, nil, cons, be_bytes, str_bytes, ◌>>=◌,
}

-- What an encoding denotes: a string of bytes, or a list of what its parts denote.
mutual
  pub data Tree : Type 0 where
    leaf : Bytes → Tree
    node : Trees → Tree

  pub data Trees : Type 0 where
    done : Trees
    more : Tree → Trees → Trees

-- A big-endian number.
unfoldable pub from_be_go : ℕ → Bytes → ℕ
from_be_go acc [] = acc
from_be_go acc (b ∷ bs) = from_be_go (acc * 256 + b) bs

unfoldable pub from_be : Bytes → ℕ
unfolding from_be_go
from_be = from_be_go 0

-- The first `n` bytes, and the rest.
unfoldable pub split : ℕ → Bytes → Option (Bytes × Bytes)
split zero bs = some ([], bs)
split (suc n) [] = none
split (suc n) (b ∷ bs) = do (xs, rest) ← split n bs; some (b ∷ xs, rest)

-- A length in `k` bytes, then that many bytes.
unfoldable pub split_long : ℕ → Bytes → Option (Bytes × Bytes)
unfolding split from_be
split_long k bs = do (ln, rest) ← split k bs; split (from_be ln) rest

unfoldable mutual
  unfolding split split_long

  -- One value and the bytes behind it.
  pub decode : ℕ → Bytes → Option (Tree × Bytes)
  decode zero bs = none
  decode (suc f) [] = none
  decode (suc f) (b ∷ bs) =
      let short_list = do
        (payload, rest) ← split (b - 0xC0) bs
        ts ← decode_all f payload
        some (node ts, rest)
      in let long_list = do
        (payload, rest) ← split_long (b - 0xF7) bs
        ts ← decode_all f payload
        some (node ts, rest)
        in if ltb b 0x80
          then some (leaf (b ∷ []), bs)
          else if ltb b 0xB8
          then (do (xs, rest) ← split (b - 0x80) bs; some (leaf xs, rest))
          else if ltb b 0xC0
          then (do (xs, rest) ← split_long (b - 0xB7) bs; some (leaf xs, rest))
          else if ltb b 0xF8
          then short_list
          else long_list

  -- All the values that fill a payload.
  pub decode_all : ℕ → Bytes → Option Trees
  decode_all zero bs = none
  decode_all (suc f) [] = some done
  decode_all (suc f) (b ∷ bs) = do
    (t, rest) ← decode f (b ∷ bs)
    ts ← decode_all f rest
    some (more t ts)

-- What a Python value should denote: an integer its bytes without leading zeros, so that 0 is the
-- empty string; `none` where there is no such value.
unfoldable mutual
  pub view : Item → Option Tree
  view (int (negsuc _)) = none
  view (int (pos n)) = some (leaf (be_bytes n))
  view (bool true) = some (leaf (1 ∷ []))
  view (bool false) = some (leaf [])
  view (bytes b) = some (leaf b)
  view (str s) = do b ← str_bytes s; some (leaf b)
  view (items xs) = do ts ← view_all xs; some (node ts)

  pub view_all : Items → Option Trees
  view_all nil = some done
  view_all (cons x xs) = do t ← view x; ts ← view_all xs; some (more t ts)

-- How deep the decoder goes into a value.
unfoldable mutual
  pub need : Item → ℕ
  need (items xs) = suc (need_all xs)
  need (int _) = 1
  need (bool _) = 1
  need (bytes _) = 1
  need (str _) = 1

  pub need_all : Items → ℕ
  need_all nil = 1
  need_all (cons x xs) = suc (need x + need_all xs)

-- No `False` inside: the encoder writes it as the byte 0x80 instead of as 0.
abbrev mutual
  pub NoFalse : Item → Type 0
  NoFalse (bool false) = ⊥
  NoFalse (bool true) = Unit
  NoFalse (int _) = Unit
  NoFalse (bytes _) = Unit
  NoFalse (str _) = Unit
  NoFalse (items xs) = NoFalseAll xs

  pub NoFalseAll : Items → Type 0
  NoFalseAll nil = Unit
  NoFalseAll (cons x xs) = NoFalse x × NoFalseAll xs
