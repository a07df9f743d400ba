-- ===== src/Web3/RawTx/Recipient/Canonical.antt =====
-- Recipients and payloads that are written in one way only, and what their fields tell of them.
use astra_ai_agent.Prelude.{
  ℕ, ◌+◌, ◌*◌, ◌<◌, ◌≤◌, ◌≡◌, ◌≢◌, ◌⊎◌, inl, inr, refl, sym, ap, ◌∙◌, Option-cases, Bool-cases,
  false, none, some, [], ◌∷◌, arith, length,
}
use astra_ai_agent.Prelude.Text.{Text, text_eq, text_eq_iff}
use astra_ai_agent.Web3.RawTx.{
  Bytes, hex_digit, from_hex_go, from_hex, drop_two, to_field, data_field, zero_addr,
}
use astra_ai_agent.Web3.RawTx.Recipient.{
  IsHex, AllHex, hex_digit-IsHex, not_blank, from_hex-length, to_field-from_hex,
}

-- A hexadecimal digit of lower case.
abbrev pub IsLowerHex : ℕ → Type 0
IsLowerHex c = ((b'0' ≤ c) × (c ≤ b'9')) ⊎ ((b'a' ≤ c) × (c ≤ b'f'))

abbrev pub AllLowerHex : Text → Type 0
AllLowerHex [] = Unit
AllLowerHex (c ∷ s) = IsLowerHex c × AllLowerHex s

-- An address of 40 digits of lower case behind 0x.
abbrev pub IsAddress : Text → Type 0
IsAddress a = (s : Text) × (a ≡ b'0' ∷ b'x' ∷ s) × AllLowerHex s × (length s ≡ 40)

-- Digits of lower case behind 0x.
abbrev pub IsPayload : Text → Type 0
IsPayload d = (s : Text) × (d ≡ b'0' ∷ b'x' ∷ s) × AllLowerHex s

IsHex-lower : (c : ℕ) → IsLowerHex c → IsHex c
IsHex-lower c (inl h) = inl h
IsHex-lower c (inr h) = inr (inl h)

AllHex-lower : (s : Text) → AllLowerHex s → AllHex s
AllHex-lower [] h = tt
AllHex-lower (c ∷ s) h = (IsHex-lower c h.0, AllHex-lower s h.1)

hex_digit-lower :
    (c : ℕ) {x : ℕ}
    → IsLowerHex c
    → hex_digit c ≡ some x
    → (x < 16) × (((x ≤ 9) × (c ≡ x + b'0')) ⊎ ((10 ≤ x) × (c + 10 ≡ x + b'a')))
unfolding hex_digit
hex_digit-lower c h e = ground (arith, h, e)

hex_digit-injective :
    (c d : ℕ) {x : ℕ}
    → IsLowerHex c
    → IsLowerHex d
    → hex_digit c ≡ some x
    → hex_digit d ≡ some x
    → c ≡ d
hex_digit-injective c d hc hd e f =
    let a = hex_digit-lower c hc e in let b = hex_digit-lower d hd f in omega (arith, a.1, b.1)

-- What one pair of digits leaves.
pair_inv :
    (c d : ℕ) (s : Text) {b : Bytes}
    → IsLowerHex c
    → IsLowerHex d
    → from_hex_go none (c ∷ d ∷ s) ≡ some b
    → (x y : ℕ) × (rest : Bytes) × (hex_digit c ≡ some x)
      × (hex_digit d ≡ some y)
      × (from_hex_go none s ≡ some rest)
      × (b ≡ (x * 16 + y) ∷ rest)
unfolding from_hex_go
pair_inv c d s hc hd e =
    let (x, ex) = hex_digit-IsHex c (IsHex-lower c hc) in
    let (y, ey) = hex_digit-IsHex d (IsHex-lower d hd) in
    elim (Option-cases (from_hex_go none s)) [
      | inl n ↦ absurd (ground (arith, e, ex, ey, n, not_blank c (IsHex-lower c hc)))
      | inr (rest, r) ↦
          (x, y, rest, ex, ey, r, ground (arith, e, ex, ey, r, not_blank c (IsHex-lower c hc)))
    ]

one_digit : (c : ℕ) {b : Bytes} → IsLowerHex c → from_hex_go none (c ∷ []) ≢ some b
unfolding from_hex_go
one_digit c hc e =
    let (x, ex) = hex_digit-IsHex c (IsHex-lower c hc) in
    ground (arith, e, ex, not_blank c (IsHex-lower c hc))

from_hex_go-injective :
    (s t : Text) {b : Bytes}
    → AllLowerHex s
    → AllLowerHex t
    → from_hex_go none s ≡ some b
    → from_hex_go none t ≡ some b
    → s ≡ t
unfolding from_hex_go
from_hex_go-injective [] [] hs ht e f = refl
from_hex_go-injective [] (c ∷ []) {b = b} hs ht e f = absurd (one_digit c {b = b} ht.0 f)
from_hex_go-injective [] (c ∷ d ∷ t) hs ht e f =
    let (x, y, rest, ex, ey, r, w) = pair_inv c d t ht.0 ht.1.0 f in absurd (ground (arith, e, w))
from_hex_go-injective (c ∷ []) t {b = b} hs ht e f = absurd (one_digit c {b = b} hs.0 e)
from_hex_go-injective (c ∷ d ∷ s) [] hs ht e f =
    let (x, y, rest, ex, ey, r, w) = pair_inv c d s hs.0 hs.1.0 e in absurd (ground (arith, f, w))
from_hex_go-injective (c ∷ d ∷ s) (c' ∷ []) {b = b} hs ht e f = absurd (one_digit c' {b = b} ht.0 f)
from_hex_go-injective (c ∷ d ∷ s) (c' ∷ d' ∷ t) hs ht e f =
    let (x, y, rest, ex, ey, r, w) = pair_inv c d s hs.0 hs.1.0 e in
    let (x', y', rest', ex', ey', r', w') = pair_inv c' d' t ht.0 ht.1.0 f in
    let both : (x * 16 + y) ∷ rest ≡ (x' * 16 + y') ∷ rest' = sym w ∙ w' in
    let small = hex_digit-lower d hs.1.0 ey in
    let small' = hex_digit-lower d' ht.1.0 ey' in
    let number : x * 16 + y ≡ x' * 16 + y' = ground (arith, both) in
    let high : x ≡ x' = omega (arith, number, small.0, small'.0) in
    let low : y ≡ y' = omega (arith, number, high) in
    let tail : rest ≡ rest' = ground (arith, both) in
    let first : c ≡ c' = hex_digit-injective c c' hs.0 ht.0 ex (ex' ∙ ap some (sym high)) in
    let second : d ≡ d' = hex_digit-injective d d' hs.1.0 ht.1.0 ey (ey' ∙ ap some (sym low)) in
    let others : s ≡ t = from_hex_go-injective s t hs.1.1 ht.1.1 r (r' ∙ ap some (sym tail)) in
    ground (arith, first, second, others)

unlike : (a : Text) → text_eq a zero_addr ≡ false → a ≢ zero_addr
unlike a z e = ground (arith, z, (text_eq_iff a zero_addr).1 e)

read_address : (a s : Text) → a ≡ b'0' ∷ b'x' ∷ s → a ≢ zero_addr → from_hex_go none s ≡ to_field a
unfolding drop_two from_hex
read_address a s e ne =
    let nonempty : a ≢ [] = λ q. ground (arith, e, q) in
    sym (to_field-from_hex a nonempty ne ∙ ap (λ u. from_hex (drop_two u)) e)

-- The field of the zero address is empty, that of another one has 20 bytes.
zero_apart :
    (a c : Text) {b : Bytes}
    → a ≡ zero_addr
    → IsAddress c
    → c ≢ zero_addr
    → to_field a ≡ some b
    → to_field c ≡ some b
    → ⊥
unfolding to_field from_hex text_eq
zero_apart a c z (s, e, h, l) ne f f' =
    let (b', g, m) = from_hex-length 20 s (AllHex-lower s h) (omega (arith, l)) in
    let none_left : some [] ≡ to_field a = ap to_field (sym z) in
    let full : some b' ≡ to_field c = sym g ∙ read_address c s e ne in
    ground (arith, none_left, full, f, f', m)

-- Addresses with one field are one address.
pub to_field-injective :
    (a c : Text) {b : Bytes}
    → IsAddress a
    → IsAddress c
    → to_field a ≡ some b
    → to_field c ≡ some b
    → a ≡ c
to_field-injective a c {b = b} (s, e, h, l) (s', e', h', l') f f' =
    elim (Bool-cases (text_eq a zero_addr)) [
      | inl z ↦ elim (Bool-cases (text_eq c zero_addr)) [
        | inl z' ↦ (text_eq_iff a zero_addr).0 z ∙ sym ((text_eq_iff c zero_addr).0 z')
        | inr z' ↦ absurd (
            zero_apart a c {b = b} ((text_eq_iff a zero_addr).0 z) (s', e', h', l') (unlike c z') f
              f')
      ]
      | inr z ↦ elim (Bool-cases (text_eq c zero_addr)) [
        | inl z' ↦
            absurd (
              zero_apart c a {b = b} ((text_eq_iff c zero_addr).0 z') (s, e, h, l) (unlike a z) f'
                f)
        | inr z' ↦
            let read = read_address a s e (unlike a z) in
            let read' = read_address c s' e' (unlike c z') in
            let same = from_hex_go-injective s s' h h' (read ∙ f) (read' ∙ f') in
            e ∙ ap (λ u. b'0' ∷ b'x' ∷ u) same ∙ sym e'
      ]
    ]

pub data_field-injective :
    (a c : Text) {b : Bytes}
    → IsPayload a
    → IsPayload c
    → data_field a ≡ some b
    → data_field c ≡ some b
    → a ≡ c
unfolding data_field drop_two from_hex
data_field-injective a c (s, e, h) (s', e', h') f f' =
    let same : s ≡ s' =
      from_hex_go-injective s s' h h' (ap data_field (sym e) ∙ f) (ap data_field (sym e') ∙ f') in
    e ∙ ap (λ u. b'0' ∷ b'x' ∷ u) same ∙ sym e'
