-- ===== src/Web3/RawTx/Numbers.antt =====
-- The big-endian digits of a number, and the splitting of a run of bytes.
use native.Mathlib.Nat.{pow-suc}
use mathlib.Core.List.{append_assoc}
use astra_ai_agent.Prelude.{
  ℕ, zero, suc, ◌+◌, ◌*◌, ◌/◌, ◌%◌, ◌^◌, ◌≤◌, ◌<◌, ◌≡◌, refl, some, [], ◌∷◌, ◌++◌, arith, length,
  length-append,
}
use astra_ai_agent.Web3.RawTx.{Bytes, be_digits, be_bytes}
use astra_ai_agent.Web3.RawTx.Decode.{from_be_go, from_be, split, split_long}

from_be_go-append :
    (acc : ℕ) (xs : Bytes) (d : ℕ) → from_be_go acc (xs ++ d ∷ []) ≡ from_be_go acc xs * 256 + d
unfolding from_be_go
from_be_go-append acc [] d = refl
from_be_go-append acc (x ∷ xs) d = from_be_go-append (acc * 256 + x) xs d

from_be-digits : (f n : ℕ) → n ≤ f → from_be_go 0 (be_digits f n) ≡ n
unfolding be_digits from_be_go
from_be-digits zero n h = omega arith
from_be-digits (suc f) n h =
    ground
      (arith, from_be_go-append 0 (be_digits f (n / 256)) (n % 256), from_be-digits f (n / 256))

-- Reading the digits of a number gives it back.
pub from_be-be_bytes : (n : ℕ) → from_be (be_bytes n) ≡ n
unfolding from_be be_bytes
from_be-be_bytes n = from_be-digits n n (omega arith)

length-be_digits : (f n k : ℕ) → n < 256 ^ k → length (be_digits f n) ≤ k
unfolding be_digits
length-be_digits zero n k h = omega arith
length-be_digits (suc f) n zero h = ground arith
length-be_digits (suc f) n (suc k) h =
    let h' : n < 256 ^ k * 256 = rw pow-suc at h in
    ground (
      arith,
      length-append (be_digits f (n / 256)) (n % 256 ∷ []),
      length-be_digits f (n / 256) k (omega arith),
    )

-- A number below 2 ^ 64 has at most eight digits.
pub length-be_bytes : (n : ℕ) → n < 256 ^ 8 → length (be_bytes n) ≤ 8
unfolding be_bytes
length-be_bytes n h = length-be_digits n n 8 h

pub be_bytes_pos : (n : ℕ) → 0 < n → 0 < length (be_bytes n)
unfolding be_bytes be_digits
be_bytes_pos zero h = elim h [ ]
be_bytes_pos (suc n) h =
    ground (arith, length-append (be_digits n (suc n / 256)) (suc n % 256 ∷ []))

pub split-append : (xs rest : Bytes) → split (length xs) (xs ++ rest) ≡ some (xs, rest)
unfolding split
split-append [] rest = refl
split-append (x ∷ xs) rest = rw (split-append xs rest)

pub split_long-append :
    (xs rest : Bytes)
    → split_long (length (be_bytes (length xs))) (be_bytes (length xs) ++ xs ++ rest)
      ≡ some (xs, rest)
unfolding split_long
split_long-append xs rest =
    rw (append_assoc, split-append) (rw from_be-be_bytes (split-append xs rest))
