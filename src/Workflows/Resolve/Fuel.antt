-- ===== src/Workflows/Resolve/Fuel.antt =====
-- The length of a text is fuel enough for the substitution of its placeholders.
use astra_ai_agent.Prelude.{
  ℕ, zero, suc, ◌≤◌, ◌<◌, ◌≡◌, refl, ap, Bool-cases, ◌&&◌, inl, inr, [], ◌∷◌, ◌++◌, Option-cases,
  some, ◌==◌, length, arith,
}
use astra_ai_agent.Prelude.Text.{Text, text_eq, skip_spaces, is_space}
use astra_ai_agent.Prelude.Json.{Json, Fields}
use astra_ai_agent.Workflows.Resolve.{
  Results, is_word, span_word, close_braces, placeholder, at_placeholder, lookup_path, substitute,
}

length-skip_spaces : (s : Text) → length (skip_spaces s) ≤ length s
length-skip_spaces [] = omega arith
length-skip_spaces (c ∷ s) = elim (Bool-cases (is_space c)) [
  | inl e ↦ rw e (omega (arith, length-skip_spaces s))
  | inr e ↦ rw e (omega arith)
]

length-span_word : (s : Text) → length (span_word s).1 ≤ length s
unfolding span_word
length-span_word [] = omega arith
length-span_word (c ∷ s) = elim (Bool-cases (is_word c)) [
  | inl e ↦ rw (span_word, e) (omega (arith, length-span_word s))
  | inr e ↦ rw (span_word, e) (omega arith)
]

length-close_braces : (s : Text) {rest : Text} → close_braces s ≡ some rest → length rest < length s
unfolding close_braces
length-close_braces [] h = absurd (ground (arith, h))
length-close_braces (c ∷ []) h = absurd (ground (arith, h))
length-close_braces (c ∷ d ∷ s) h = ground (arith, h)

length-placeholder :
    (s : Text) {path rest : Text} → placeholder s ≡ some (path, rest) → length rest < length s
unfolding placeholder
length-placeholder s h =
    let word = span_word (skip_spaces s) in
    elim (Bool-cases (text_eq word.0 [])) [
      | inl e ↦ absurd (ground (arith, h, e))
      | inr e ↦ elim (Option-cases (close_braces (skip_spaces word.1))) [
        | inl n ↦ absurd (ground (arith, h, e, n))
        | inr (r, f) ↦ ground (
          arith,
          h,
          e,
          f,
          length-close_braces (skip_spaces word.1) f,
          length-skip_spaces word.1,
          length-span_word (skip_spaces s),
          length-skip_spaces s,
        )
      ]
    ]

length-at_placeholder :
    (s : Text) {path rest : Text} → at_placeholder s ≡ some (path, rest) → length rest < length s
unfolding at_placeholder
length-at_placeholder [] h = absurd (ground (arith, h))
length-at_placeholder (c ∷ []) h = absurd (ground (arith, h))
length-at_placeholder (c ∷ d ∷ s) {path = path} {rest = rest} h =
    elim (Bool-cases (c == b'{' && d == b'{')) [
      | inl e ↦
          let found : placeholder s ≡ some (path, rest) = ground (arith, h, e) in
          omega (arith, length-placeholder s {path = path} {rest = rest} found)
      | inr e ↦ absurd (ground (arith, h, e))
    ]

module _ (show : Json → Text) (results : Results) (params : Fields) where
  -- Two amounts of fuel, each at least the length of the text, give the same text.
  pub substitute_fuel :
      (f g : ℕ) (s : Text)
      → length s ≤ f
      → length s ≤ g
      → substitute show f results params s ≡ substitute show g results params s
  unfolding substitute
  substitute_fuel zero zero s hf hg = refl
  substitute_fuel zero (suc g) [] hf hg = refl
  substitute_fuel (suc f) zero [] hf hg = refl
  substitute_fuel (suc f) (suc g) [] hf hg = refl
  substitute_fuel zero (suc g) (c ∷ s) hf hg = absurd (omega (arith, hf))
  substitute_fuel (suc f) zero (c ∷ s) hf hg = absurd (omega (arith, hg))
  substitute_fuel (suc f) (suc g) (c ∷ s) hf hg = elim (Option-cases (at_placeholder (c ∷ s))) [
    | inl n ↦
        rw (substitute, n)
          (ap (λ u. c ∷ u) (substitute_fuel f g s (omega (arith, hf)) (omega (arith, hg))))
    | inr ((path, rest), e) ↦
        let less = length-at_placeholder (c ∷ s) {path = path} {rest = rest} e in
        rw (substitute, e)
          (ap (λ u. show (lookup_path path results params) ++ u)
            (substitute_fuel f g rest (omega (arith, hf, less)) (omega (arith, hg, less))))
  ]
