-- ===== src/Workflows/Names/Free.antt =====
-- The name that is made up is free, since more names are tried than are taken.
use astra_ai_agent.Prelude.{
  ℕ, zero, suc, ◌+◌, ◌-◌, ◌*◌, ◌/◌, ◌<◌, ◌≤◌, ◌≡◌, refl, sym, ap, ◌∙◌, Bool, Bool-cases, true,
  false, inl, inr, List, [], ◌∷◌, ◌++◌, ltb, length, arith,
}
use astra_ai_agent.Prelude.Text.{Text, text_eq_iff, text_mem}
use astra_ai_agent.Workflows.Names.{decimal_digits, decimal, first_free}
use astra_ai_agent.Workflows.Graph.Sets.{Within, Distinct, Distinct-length}

-- The number that decimal digits stand for.
unfoldable value_from : ℕ → Text → ℕ
value_from acc [] = acc
value_from acc (c ∷ cs) = value_from (10 * acc + (c - 48)) cs

value_from-snoc :
    (acc : ℕ) (cs : Text) (c : ℕ)
    → value_from acc (cs ++ c ∷ []) ≡ 10 * value_from acc cs + (c - 48)
unfolding value_from
value_from-snoc acc [] c = refl
value_from-snoc acc (d ∷ cs) c = value_from-snoc (10 * acc + (d - 48)) cs c

value_from-decimal_digits : (f n : ℕ) → n ≤ f → value_from 0 (decimal_digits f n) ≡ n
unfolding decimal_digits value_from
value_from-decimal_digits zero n h = ground arith
value_from-decimal_digits (suc f) n h = elim (Bool-cases (ltb n 10)) [
  | inl e ↦ rw (decimal_digits, e) (omega arith)
  | inr e ↦
      rw (decimal_digits, e, value_from-snoc) (ground (arith, value_from-decimal_digits f (n / 10)))
]

pub decimal-injective : (m n : ℕ) → decimal m ≡ decimal n → m ≡ n
unfolding decimal
decimal-injective m n e =
    sym (value_from-decimal_digits m m (omega arith))
    ∙ ap (value_from 0) e
    ∙ value_from-decimal_digits n n (omega arith)

first_free-taken :
    (taken : Text → Bool) (name : ℕ → Text) (f n : ℕ)
    → taken (name n) ≡ true
    → first_free taken name (suc f) n ≡ first_free taken name f (suc n)
unfolding first_free
first_free-taken taken name f n e = rw (first_free, e) refl

first_free-here :
    (taken : Text → Bool) (name : ℕ → Text) (f n : ℕ)
    → taken (name n) ≡ false
    → first_free taken name (suc f) n ≡ name n
unfolding first_free
first_free-here taken name f n e = rw (first_free, e) refl

module _ (taken : List Text) (name : ℕ → Text) where
  -- The names that `f` rounds try.
  unfoldable tried : ℕ → ℕ → List Text
  tried zero n = []
  tried (suc f) n = name n ∷ tried f (suc n)

  length-tried : (f n : ℕ) → length (tried f n) ≡ f
  unfolding tried
  length-tried zero n = refl
  length-tried (suc f) n = omega (arith, length-tried f (suc n))

  tried_later :
      ((m n : ℕ) → name m ≡ name n → m ≡ n)
      → (f m n : ℕ) → m < n
      → text_mem (name m) (tried f n) ≡ false
  unfolding tried text_mem
  tried_later inj zero m n lt = refl
  tried_later inj (suc f) m n lt =
      ground (arith, text_eq_iff (name m) (name n), inj m n, tried_later inj f m (suc n))

  tried-Distinct : ((m n : ℕ) → name m ≡ name n → m ≡ n) → (f n : ℕ) → Distinct (tried f n)
  unfolding tried
  tried-Distinct inj zero n = tt
  tried-Distinct inj (suc f) n =
      (tried_later inj f n (suc n) (omega arith), tried-Distinct inj f (suc n))

  -- With no free name among those tried, all of them are taken.
  tried-Within :
      (test : Text → Bool)
      → ((t : Text) → test t ≡ text_mem t taken)
      → (f n : ℕ) → text_mem (first_free test name f n) taken ≡ true
      → Within (tried f n) taken
  unfolding tried first_free
  tried-Within test same zero n h = tt
  tried-Within test same (suc f) n h = elim (Bool-cases (test (name n))) [
    | inl e ↦ (
      sym (same (name n)) ∙ e,
      tried-Within test same f (suc n) (rw (sym (first_free-taken test name f n e)) h),
    )
    | inr e ↦
        let here = first_free-here test name f n e in
        absurd (ground (arith, same (name n), ap (λ t. text_mem t taken) here))
  ]

  -- With distinct names, and more rounds than taken names, the name that is found is free.
  pub first_free_lem :
      (test : Text → Bool)
      → ((t : Text) → test t ≡ text_mem t taken)
      → ((m n : ℕ) → name m ≡ name n → m ≡ n)
      → (f n : ℕ) → length taken < f
      → test (first_free test name f n) ≡ false
  first_free_lem test same inj f n lt = elim (Bool-cases (test (first_free test name f n))) [
    | inr e ↦ e
    | inl e ↦ absurd (
        omega (
          arith,
          lt,
          length-tried f n,
          Distinct-length (tried f n) taken (tried-Distinct inj f n)
              (tried-Within test same f n (sym (same (first_free test name f n)) ∙ e)),
        ))
  ]
