-- ===== src/Web3/RawTx/Recipient.antt =====
-- The recipient field of a transaction, against what the policy takes for a recipient.
pub mod Canonical
use astra_ai_agent.Prelude.{
  ℕ, zero, suc, ◌+◌, ◌-◌, ◌*◌, ◌≤◌, ◌≡◌, ◌≢◌, ◌⊎◌, inl, inr, refl, ap, false, none, some, [], ◌∷◌,
  arith, length, length-map, ◌∙◌, ◌==◌,
}
use astra_ai_agent.Prelude.Text.{
  Text, NoSpace, strip-NoSpace, lower, text_eq_iff, is_space, lower_code,
}
use astra_ai_agent.Web3.Policy.{norm, without_prefix}
use astra_ai_agent.Web3.RawTx.{
  Bytes, hex_digit, from_hex_go, from_hex, drop_two, to_field, zero_addr,
}

-- A hexadecimal digit of either case.
abbrev pub IsHex : ℕ → Type 0
IsHex c = ((b'0' ≤ c) × (c ≤ b'9')) ⊎ ((b'a' ≤ c) × (c ≤ b'f')) ⊎ ((b'A' ≤ c) × (c ≤ b'F'))

abbrev pub AllHex : Text → Type 0
AllHex [] = Unit
AllHex (c ∷ s) = IsHex c × AllHex s

hex_digit-IsHex : (c : ℕ) → IsHex c → (d : ℕ) × (hex_digit c ≡ some d)
unfolding hex_digit
hex_digit-IsHex c (inl h) = (c - b'0', ground arith)
hex_digit-IsHex c (inr (inl h)) = (c - b'a' + 10, ground arith)
hex_digit-IsHex c (inr (inr h)) = (c - b'A' + 10, ground arith)

not_blank : (c : ℕ) → IsHex c → is_space c ≡ false
not_blank c h = ground arith

from_hex_go-length :
    (k : ℕ) (s : Text)
    → AllHex s
    → length s ≡ k + k
    → (b : Bytes) × (from_hex_go none s ≡ some b) × (length b ≡ k)
unfolding from_hex_go
from_hex_go-length zero [] h l = ([], refl, refl)
from_hex_go-length zero (c ∷ s) h l = absurd (omega arith)
from_hex_go-length (suc k) [] h l = absurd (omega arith)
from_hex_go-length (suc k) (c ∷ []) h l = absurd (omega arith)
from_hex_go-length (suc k) (c ∷ d ∷ s) h l =
    let (b, e, m) = from_hex_go-length k s h.1.1 (omega arith) in
    let (x, ex) = hex_digit-IsHex c h.0 in
    let (y, ey) = hex_digit-IsHex d h.1.0 in
    ((x * 16 + y) ∷ b, ground (arith, not_blank c), ap suc m)

-- `2 k` digits are `k` bytes.
from_hex-length :
    (k : ℕ) (s : Text)
    → AllHex s
    → length s ≡ k + k
    → (b : Bytes) × (from_hex s ≡ some b) × (length b ≡ k)
unfolding from_hex
from_hex-length = from_hex_go-length

NoSpace-AllHex : (s : Text) → AllHex s → NoSpace s
NoSpace-AllHex [] h = tt
NoSpace-AllHex (c ∷ s) h = (not_blank c h.0, NoSpace-AllHex s h.1)

not_x : (c : ℕ) → IsHex c → (lower_code c == b'x') ≡ false
not_x c h = ground arith

length-lowered : (s : Text) → AllHex s → length (without_prefix (lower s)) ≡ length s
unfolding without_prefix lower
length-lowered [] h = refl
length-lowered (c ∷ []) h = refl
length-lowered (c ∷ d ∷ s) h = ground (arith, not_x d h.1.0, length-map s lower_code)

-- `x` is no digit, so a text of digits has no prefix to lose.
length-norm-AllHex : (s : Text) → AllHex s → length (norm s) ≡ length s
unfolding norm
length-norm-AllHex s h = rw (strip-NoSpace s (NoSpace-AllHex s h)) (length-lowered s h)

-- With the prefix it loses two characters.
length-norm_prefixed : (s : Text) → AllHex s → length (norm (b'0' ∷ b'x' ∷ s)) ≡ length s
unfolding norm without_prefix lower
length-norm_prefixed s h =
    rw (strip-NoSpace (b'0' ∷ b'x' ∷ s) (refl, (refl, NoSpace-AllHex s h)))
      (length-map s lower_code)

-- A recipient that is not the zero address is read as hexadecimal digits, behind two characters.
to_field-from_hex : (a : Text) → a ≢ [] → a ≢ zero_addr → to_field a ≡ from_hex (drop_two a)
unfolding to_field
to_field-from_hex a ne nz = ground (arith, text_eq_iff a zero_addr)

-- The bytes of a digit text that loses its first two characters.
dropped-length :
    (s : Text)
    → AllHex s
    → length s ≡ 40
    → (b : Bytes) × (from_hex (drop_two s) ≡ some b) × (length b ≡ 19)
unfolding drop_two
dropped-length [] h l = absurd (omega arith)
dropped-length (c ∷ []) h l = absurd (omega arith)
dropped-length (c ∷ d ∷ s) h l = from_hex-length 19 s h.1.1 (omega arith)

-- A recipient of 40 digits behind 0x, other than the zero address, becomes the 20 bytes of an
-- address; the same 40 digits without 0x, which the policy takes as well formed too, become 19.
pub to_field-length :
    (s : Text)
    → AllHex s
    → length s ≡ 40
    → b'0' ∷ b'x' ∷ s ≢ zero_addr
    → ((length (norm (b'0' ∷ b'x' ∷ s)) ≡ 40)
        × (b : Bytes) × (to_field (b'0' ∷ b'x' ∷ s) ≡ some b)
        × (length b ≡ 20))
      × ((length (norm s) ≡ 40) × (b : Bytes) × (to_field s ≡ some b) × (length b ≡ 19))
to_field-length s h l nz =
    let (b, e, m) = from_hex-length 20 s h (omega arith) in
    let (b', e', m') = dropped-length s h l in
    let bare : s ≢ [] = λ q. absurd (omega (arith, ap length q)) in
    let short : s ≢ zero_addr = λ q. absurd (omega (arith, ap length q)) in
    (
      (length-norm_prefixed s h ∙ l, b, to_field-from_hex _ (λ q. cc) nz ∙ unfold drop_two in e, m),
      (length-norm-AllHex s h ∙ l, b', to_field-from_hex s bare short ∙ e', m'),
    )
