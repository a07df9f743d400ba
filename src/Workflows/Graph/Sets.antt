-- ===== src/Workflows/Graph/Sets.antt =====
-- Lists of distinct texts, and the pigeonhole principle on them.
use astra_ai_agent.Prelude.{
  suc, ◌≤◌, ◌≡◌, refl, Bool-cases, true, false, inl, inr, List, [], ◌∷◌, ◌++◌, length, arith,
  if◌then◌else◌,
}
use astra_ai_agent.Prelude.Text.{Text, text_eq, text_eq_iff, text_eq_refl, text_mem}

-- Every text of the first list is in the second.
abbrev pub Within : List Text → List Text → Type 0
Within [] ys = Unit
Within (x ∷ xs) ys = (text_mem x ys ≡ true) × Within xs ys

abbrev pub Distinct : List Text → Type 0
Distinct [] = Unit
Distinct (x ∷ xs) = (text_mem x xs ≡ false) × Distinct xs

pub mem-append :
    (x : Text) (ys zs : List Text)
    → text_mem x (ys ++ zs) ≡ (if text_mem x ys then true else text_mem x zs)
unfolding text_mem
mem-append x [] zs = refl
mem-append x (y ∷ ys) zs = ground (arith, mem-append x ys zs)

pub mem-snoc :
    (x y : Text) (ys : List Text)
    → text_mem x (ys ++ y ∷ []) ≡ (if text_eq x y then true else text_mem x ys)
unfolding text_mem
mem-snoc x y ys = ground (arith, mem-append x ys (y ∷ []))

pub Within-mem :
    (xs ys : List Text) (x : Text) → Within xs ys → text_mem x xs ≡ true → text_mem x ys ≡ true
unfolding text_mem
Within-mem [] ys x h e = ground arith
Within-mem (z ∷ xs) ys x h e = elim (Bool-cases (text_eq x z)) [
  | inl eq ↦ rw ((text_eq_iff x z).0 eq) h.0
  | inr ne ↦ Within-mem xs ys x h.1 (ground arith)
]

pub Within-step : (xs ys : List Text) (y : Text) → Within xs ys → Within xs (y ∷ ys)
unfolding text_mem
Within-step [] ys y h = tt
Within-step (x ∷ xs) ys y h = (ground arith, Within-step xs ys y h.1)

pub Within-refl : (xs : List Text) → Within xs xs
unfolding text_mem
Within-refl [] = tt
Within-refl (x ∷ xs) = (ground (arith, text_eq_refl x), Within-step xs xs x (Within-refl xs))

pub Within-trans : (xs ys zs : List Text) → Within xs ys → Within ys zs → Within xs zs
Within-trans [] ys zs h k = tt
Within-trans (x ∷ xs) ys zs h k = (Within-mem ys zs x k h.0, Within-trans xs ys zs h.1 k)

pub Within-snoc : (xs ys : List Text) (y : Text) → Within xs ys → Within xs (ys ++ y ∷ [])
Within-snoc [] ys y h = tt
Within-snoc (x ∷ xs) ys y h = (ground (arith, mem-snoc x y ys), Within-snoc xs ys y h.1)

-- The list without the first occurrence of a text.
unfoldable without_one : Text → List Text → List Text
without_one x [] = []
without_one x (y ∷ ys) = if text_eq x y then ys else y ∷ without_one x ys

length-without_one :
    (x : Text) (ys : List Text) → text_mem x ys ≡ true → length ys ≡ suc (length (without_one x ys))
unfolding without_one text_mem
length-without_one x [] h = ground arith
length-without_one x (y ∷ ys) h = ground (arith, length-without_one x ys)

mem-without_one :
    (x z : Text) (ys : List Text)
    → text_eq z x ≡ false
    → text_mem z ys ≡ true
    → text_mem z (without_one x ys) ≡ true
unfolding without_one text_mem
mem-without_one x z [] ne h = h
mem-without_one x z (y ∷ ys) ne h =
    ground (arith, mem-without_one x z ys, text_eq_iff x y, text_eq_iff z y, text_eq_iff z x)

Within-without_one :
    (x : Text) (xs ys : List Text)
    → text_mem x xs ≡ false
    → Within xs ys
    → Within xs (without_one x ys)
unfolding text_mem
Within-without_one x [] ys fresh h = tt
Within-without_one x (z ∷ xs) ys fresh h = (
  mem-without_one x z ys (ground (arith, text_eq_iff x z, text_eq_iff z x)) h.0,
  Within-without_one x xs ys (ground arith) h.1,
)

-- Distinct texts of a list are no more than the list has.
pub Distinct-length : (xs ys : List Text) → Distinct xs → Within xs ys → length xs ≤ length ys
Distinct-length [] ys d h = omega arith
Distinct-length (x ∷ xs) ys d h = omega (
  arith,
  length-without_one x ys h.0,
  Distinct-length xs (without_one x ys) d.1 (Within-without_one x xs ys d.0 h.1),
)

-- Distinct texts of a list, as many as it has, are all of it.
pub Distinct-full :
    (xs ys : List Text) (y : Text)
    → Distinct xs
    → Within xs ys
    → length ys ≤ length xs
    → text_mem y ys ≡ true
    → text_mem y xs ≡ true
Distinct-full xs ys y d h le m = elim (Bool-cases (text_mem y xs)) [
  | inl e ↦ e
  | inr e ↦ absurd (ground (arith, Distinct-length (y ∷ xs) ys (e, d) (m, h)))
]

pub Distinct-snoc :
    (xs : List Text) (x : Text) → Distinct xs → text_mem x xs ≡ false → Distinct (xs ++ x ∷ [])
unfolding text_mem
Distinct-snoc [] x d fresh = (refl, tt)
Distinct-snoc (y ∷ xs) x d fresh = (
  ground (arith, mem-snoc y x xs, text_eq_iff x y, text_eq_iff y x),
  Distinct-snoc xs x d.1 (ground arith),
)
