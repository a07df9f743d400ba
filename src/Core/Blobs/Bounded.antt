-- ===== src/Core/Blobs/Bounded.antt =====
-- Without a database, the texts in memory are counted right and kept within the budget.
use mathlib.Core.Path.{subst}
use astra_ai_agent.Prelude.{
  ℕ, ◌+◌, ◌-◌, ◌≤◌, ◌≡◌, ◌⊎◌, refl, sym, ap, ◌∙◌, Bool-cases, false, inl, inr, List, [], ◌∷◌, ◌++◌,
  none, some, ltb, length, length-append, arith, if◌then◌else◌,
}
use astra_ai_agent.Prelude.Text.{Text, text_eq, text_eq_iff, text_eq_refl}
use astra_ai_agent.Core.Blobs.{
  BlobStore, fallback_max_bytes, find_text, drop_text, text_or_empty, evict, append_in_memory,
}

-- The characters in memory.
unfoldable pub total : List (Text × Text) → ℕ
total [] = 0
total ((k, t) ∷ ts) = length t + total ts

abbrev pub DistinctKeys : List (Text × Text) → Type 0
DistinctKeys [] = Unit
DistinctKeys ((k, t) ∷ ts) = (find_text k ts ≡ none) × DistinctKeys ts

total-append : (ts us : List (Text × Text)) → total (ts ++ us) ≡ total ts + total us
unfolding total
total-append [] us = omega arith
total-append ((k, t) ∷ ts) us = omega (arith, total-append ts us)

total-drop_text :
    (k : Text) (ts : List (Text × Text))
    → total (drop_text k ts) + length (text_or_empty (find_text k ts)) ≡ total ts
unfolding total drop_text find_text
total-drop_text k [] = omega arith
total-drop_text k ((j, t) ∷ ts) = ground (arith, total-drop_text k ts)

find_text-drop_text :
    (k j : Text) (ts : List (Text × Text))
    → find_text j ts ≡ none
    → find_text j (drop_text k ts) ≡ none
unfolding drop_text find_text
find_text-drop_text k j [] h = refl
find_text-drop_text k j ((i, t) ∷ ts) h = ground (arith, find_text-drop_text k j ts)

DistinctKeys-drop_text :
    (k : Text) (ts : List (Text × Text))
    → DistinctKeys ts
    → DistinctKeys (drop_text k ts) × (find_text k (drop_text k ts) ≡ none)
unfolding drop_text find_text
DistinctKeys-drop_text k [] d = (tt, refl)
DistinctKeys-drop_text k ((j, t) ∷ ts) d =
    let rest = DistinctKeys-drop_text k ts d.1 in
    elim (Bool-cases (text_eq j k)) [
      | inl e ↦
          rw (drop_text, e) (d.1, ap (λ i. find_text i ts) (sym ((text_eq_iff j k).0 e)) ∙ d.0)
      | inr e ↦
          rw (drop_text, e) ((find_text-drop_text k j ts d.0, rest.0), rw (find_text, e) rest.1)
    ]

find_text-append :
    (k j : Text) (f : Text) (ts : List (Text × Text))
    → find_text j (ts ++ (k, f) ∷ [])
      ≡ elim (find_text j ts) [ some t ↦ some t | none ↦ if text_eq k j then some f else none ]
unfolding find_text
find_text-append k j f [] = ground arith
find_text-append k j f ((i, t) ∷ ts) = ground (arith, find_text-append k j f ts)

-- What is left of the texts before the last one, `k`, and the count.
abbrev Evicted : Text → Text → List (Text × Text) × ℕ → Type 0
Evicted k f r =
    (rest : List (Text × Text)) × (r.0 ≡ rest ++ (k, f) ∷ [])
    × (find_text k rest ≡ none)
    × DistinctKeys rest
    × (r.1 ≡ total r.0)
    × ((r.1 ≤ fallback_max_bytes) ⊎ (rest ≡ []))

-- One round of the loop on at least two texts.
evict_step :
    (k : Text) (bytes : ℕ) (j t : Text) (u : Text × Text) (ts : List (Text × Text))
    → text_eq j k ≡ false
    → evict k bytes ((j, t) ∷ u ∷ ts) ≡ (
        if ltb fallback_max_bytes bytes
        then evict k (bytes - length t) (u ∷ ts)
        else ((j, t) ∷ u ∷ ts, bytes))
unfolding evict
evict_step k bytes j t u ts e = elim (Bool-cases (ltb fallback_max_bytes bytes)) [
  | inl b ↦ rw (evict, b, e) refl
  | inr b ↦ rw (evict, b) refl
]

-- The texts behind the first one are never none.
cons_view :
    (init : List (Text × Text)) (x : Text × Text)
    → (u : Text × Text) × (ts : List (Text × Text)) × (init ++ x ∷ [] ≡ u ∷ ts)
cons_view [] x = (x, [], refl)
cons_view (i ∷ is) x = (i, is ++ x ∷ [], refl)

evict-Evicted :
    (k f : Text) (init : List (Text × Text)) (bytes : ℕ)
    → find_text k init ≡ none
    → DistinctKeys init
    → bytes ≡ total (init ++ (k, f) ∷ [])
    → Evicted k f (evict k bytes (init ++ (k, f) ∷ []))
unfolding evict find_text total
evict-Evicted k f [] bytes none_k d count = ([], refl, refl, tt, count, inr refl)
evict-Evicted k f ((j, t) ∷ init) bytes none_k d count =
    let other : text_eq j k ≡ false = ground (arith, none_k) in
    let (u, ts, shape) = cons_view init (k, f) in
    let one = ap (λ us. evict k bytes ((j, t) ∷ us)) shape ∙ evict_step k bytes j t u ts other in
    elim (Bool-cases (ltb fallback_max_bytes bytes)) [
      | inl b ↦
          let rest =
            evict-Evicted k f init (bytes - length t) (ground (arith, none_k)) d.1
              (ground (arith, count)) in
          subst (Evicted k f) (sym (one ∙ ground (arith, b, ap (evict k (bytes - length t)) shape)))
            rest
      | inr b ↦
          subst (Evicted k f) (sym (one ∙ ground (arith, b, shape)))
            ((j, t) ∷ init, refl, none_k, d, count, inl (ground (arith, b)))
    ]

DistinctKeys-append :
    (k f : Text) (ts : List (Text × Text))
    → find_text k ts ≡ none
    → DistinctKeys ts
    → DistinctKeys (ts ++ (k, f) ∷ [])
unfolding find_text
DistinctKeys-append k f [] h d = (refl, tt)
DistinctKeys-append k f ((j, t) ∷ ts) h d = (
  ground (arith, h, d.0, find_text-append k j f ts, text_eq_iff j k, text_eq_iff k j),
  DistinctKeys-append k f ts (ground (arith, h)) d.1,
)

find_text-last :
    (k f : Text) (ts : List (Text × Text))
    → find_text k ts ≡ none
    → find_text k (ts ++ (k, f) ∷ []) ≡ some f
find_text-last k f ts h = ground (arith, h, find_text-append k k f ts, text_eq_refl k)

-- The count of bytes is that of the texts, and no identifier is there twice.
abbrev pub IsCounted : BlobStore → Type 0
IsCounted s = (s.mem_bytes ≡ total s.mem) × DistinctKeys s.mem

total_full :
    (k t : Text) (s : BlobStore)
    → s.mem_bytes ≡ total s.mem
    → s.mem_bytes + length t
      ≡ total (drop_text k s.mem ++ (k, text_or_empty (find_text k s.mem) ++ t) ∷ [])
unfolding total
total_full k t s count =
    let old = text_or_empty (find_text k s.mem) in
    omega (
      arith,
      count,
      total-append (drop_text k s.mem) ((k, old ++ t) ∷ []),
      total-drop_text k s.mem,
      length-append old t,
    )

-- In memory, an append keeps the count right; it returns the size of the whole new text of its
-- blob, which is there afterwards; and what is kept is within the budget, or is that text alone.
pub append_in_memory_lem :
    (k t : Text) (s : BlobStore)
    → IsCounted s
    → IsCounted (append_in_memory k t s).0
      × (find_text k (append_in_memory k t s).0.mem ≡ some (text_or_empty (find_text k s.mem) ++ t))
      × ((append_in_memory k t s).1 ≡ length (text_or_empty (find_text k s.mem) ++ t))
      × (((append_in_memory k t s).0.mem_bytes ≤ fallback_max_bytes)
          ⊎ ((append_in_memory k t s).0.mem ≡ (k, text_or_empty (find_text k s.mem) ++ t) ∷ []))
unfolding append_in_memory
append_in_memory_lem k t s (count, distinct) =
    let full = text_or_empty (find_text k s.mem) ++ t in
    let dropped = DistinctKeys-drop_text k s.mem distinct in
    let size : s.mem_bytes + length t ≡ total (drop_text k s.mem ++ (k, full) ∷ []) =
      total_full k t s count in
    let (rest, kept, gone, d, bytes, small) =
      evict-Evicted k full (drop_text k s.mem) (s.mem_bytes + length t) dropped.1 dropped.0 size in
    (
      (bytes, subst DistinctKeys (sym kept) (DistinctKeys-append k full rest gone d)),
      subst (λ m. find_text k m ≡ some full) (sym kept) (find_text-last k full rest gone),
      refl,
      elim small [
        | inl le ↦ inl le
        | inr none_left ↦ inr (kept ∙ ap (λ r. r ++ (k, full) ∷ []) none_left)
      ],
    )
