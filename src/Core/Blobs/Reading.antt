-- ===== src/Core/Blobs/Reading.antt =====
-- A reader that follows `next_offset` gets the whole text.
use astra_ai_agent.Prelude.{
  ℕ, zero, suc, ◌+◌, ◌-◌, ◌<◌, ◌≤◌, ◌≡◌, refl, sym, ap, ◌∙◌, Bool-cases, true, false, inl, inr, [],
  ◌∷◌, ◌++◌, Option, none, some, leb, length, take, drop, take-append-drop, length-take,
  length-drop, arith,
}
use astra_ai_agent.Prelude.Int.{ℤ, pos, negsuc}
use astra_ai_agent.Prelude.Text.{Text}
use astra_ai_agent.Core.Blobs.{
  BlobStore, length_or_default, clamp, chunk_length, chunk_of, get_text, read_blob,
}

-- Reads with `read_blob` from `offset` on, as long as there is a next offset; `none` for an unknown
-- identifier or too little fuel.
unfoldable pub read_on : ℕ → Text → ℕ → ℤ → BlobStore → Option Text
unfolding read_blob
read_on zero k offset n s = none
read_on (suc f) k offset n s = elim (read_blob true k (pos offset) n s) [
  | none ↦ none
  | some c ↦ elim c.next_offset [
    | none ↦ some c.text
    | some next ↦ elim (read_on f k next n s) [ none ↦ none | some rest ↦ some (c.text ++ rest) ]
  ]
]

clamp-positive : (n : ℤ) → 1 ≤ clamp n
unfolding clamp
clamp-positive (pos n) = ground arith
clamp-positive (negsuc n) = omega arith

chunk_length-positive : (n : ℤ) → 1 ≤ chunk_length n
unfolding chunk_length
chunk_length-positive n = clamp-positive (length_or_default n)

drop_nil : (a : ℕ) → drop {A = ℕ} a [] ≡ []
drop_nil zero = refl
drop_nil (suc a) = refl

drop_add : (a b : ℕ) (t : Text) → drop (a + b) t ≡ drop b (drop a t)
drop_add zero b t = let e : zero + b ≡ b = omega arith in ap (λ i. drop i t) e
drop_add (suc a) b [] = drop_nil (suc a + b) ∙ sym (drop_nil b)
drop_add (suc a) b (x ∷ t) =
    let e : suc a + b ≡ suc (a + b) = omega arith in ap (λ i. drop i (x ∷ t)) e ∙ drop_add a b t

take_all : (n : ℕ) (t : Text) → length t ≤ n → take n t ≡ t
take_all zero [] h = refl
take_all (suc n) [] h = refl
take_all zero (x ∷ t) h = absurd (omega (arith, h))
take_all (suc n) (x ∷ t) h = ap (λ u. x ∷ u) (take_all n t (omega (arith, h)))

module _ (k : Text) (s : BlobStore) (t : Text) (found : get_text true k s ≡ some t) where
  read_on-last :
      (f offset : ℕ) (n : ℤ)
      → leb (length t) (offset + length (take (chunk_length n) (drop offset t))) ≡ true
      → read_on (suc f) k offset n s ≡ some (take (chunk_length n) (drop offset t))
  unfolding read_on read_blob chunk_of
  read_on-last f offset n e = rw (read_on, read_blob, found, chunk_of, e) refl

  read_on-next :
      (f offset : ℕ) (n : ℤ) {rest : Text}
      → leb (length t) (offset + length (take (chunk_length n) (drop offset t))) ≡ false
      → read_on f k (offset + length (take (chunk_length n) (drop offset t))) n s ≡ some rest
      → read_on (suc f) k offset n s ≡ some (take (chunk_length n) (drop offset t) ++ rest)
  unfolding read_on read_blob chunk_of
  read_on-next f offset n e r = rw (read_on, read_blob, found, chunk_of, e, r) refl

  read_on-drop :
      (f offset : ℕ) (n : ℤ)
      → offset ≤ length t
      → length t - offset < f
      → read_on f k offset n s ≡ some (drop offset t)
  read_on-drop zero offset n le lt = absurd (omega (arith, lt))
  read_on-drop (suc f) offset n le lt =
      let m = chunk_length n in
      let rest = drop offset t in
      let chunk = take m rest in
      let sizes = length-take m rest in
      let left = length-drop offset t in
      elim (Bool-cases (leb (length t) (offset + length chunk))) [
        | inl e ↦
            let all : length rest ≤ m = ground (arith, e, sizes, left, le) in
            read_on-last f offset n e ∙ ap some (take_all m rest all)
        | inr e ↦
            let full : length chunk ≡ m = ground (arith, e, sizes, left, le) in
            let later =
              read_on-drop f (offset + length chunk) n (ground (arith, e))
                (ground (arith, e, lt, full, chunk_length-positive n, le)) in
            read_on-next f offset n e later
            ∙ ap (λ u. some (chunk ++ u))
                (drop_add offset (length chunk) t ∙ ap (λ j. drop j rest) full)
            ∙ ap some (take-append-drop m rest)
      ]

  -- Whatever length is asked for, negative ones and 0 included, a reader who starts at 0 and follows `next_offset` until there is
  -- none is done after at most as many reads as the text has characters, and one, and has read the
  -- text of the blob.
  pub read_on_lem : (n : ℤ) → read_on (suc (length t)) k 0 n s ≡ some t
  read_on_lem n = read_on-drop (suc (length t)) 0 n (omega arith) (omega arith)
