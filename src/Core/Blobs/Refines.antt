-- ===== src/Core/Blobs/Refines.antt =====
-- With a database that works, the blob store is a map from identifiers to texts.
use mathlib.Core.List.{append-nil}
use astra_ai_agent.Prelude.{
  ◌≡◌, ◌≢◌, refl, sym, ap, ◌∙◌, Bool-cases, true, inl, inr, List, [], ◌∷◌, ◌++◌, Option,
  Option-cases, none, some, length, length-append, arith, if◌then◌else◌,
}
use astra_ai_agent.Prelude.Text.{Text, text_eq, text_eq_iff}
use astra_ai_agent.Core.Blobs.{
  Blob, BlobStore, find_blob, extend_row, open_blob, get_text, append_text, append_blob, put_blob,
}

-- What the store promises: each identifier has a text or none.
abbrev pub Contents : Type 0
Contents = Text → Option Text

pub data BlobCall : Type 0 where
  opening : Text → BlobCall
  appending putting : Text → Text → BlobCall

abbrev pub joined : Text → Option Text → Option Text
joined t none = none
joined t (some u) = some (u ++ t)

abbrev pub opened : Text → Contents → Contents
opened k m j = if text_eq k j then some [] else m j

abbrev pub appended : Text → Text → Contents → Contents
appended k t m j = if text_eq k j then joined t (m j) else m j

unfoldable pub expected : BlobCall → Contents → Contents
expected (opening k) m = opened k m
expected (appending k t) m = appended k t m
expected (putting k t) m = appended k t (opened k m)

unfoldable pub blob_call : BlobCall → BlobStore → BlobStore
unfolding open_blob append_blob put_blob
blob_call (opening k) s = open_blob true k s
blob_call (appending k t) s = (append_blob true k t s).0
blob_call (putting k t) s = (put_blob true k t s).0

-- `_new_id` makes up an identifier that is not empty and not there yet.
abbrev pub IsFresh : BlobCall → Contents → Type 0
IsFresh (opening k) m = (k ≢ []) × (m k ≡ none)
IsFresh (appending k t) m = Unit
IsFresh (putting k t) m = (k ≢ []) × (m k ≡ none)

abbrev AllSized : List Blob → Type 0
AllSized [] = Unit
AllSized (b ∷ bs) = (b.size ≡ length b.text) × AllSized bs

-- The store has its database, its rows know their sizes, and `_get` answers as the map says.
abbrev pub Implements : BlobStore → Contents → Type 0
Implements s m =
    (bs : List Blob) × (s.rows ≡ some bs) × AllSized bs × ((k : Text) → get_text true k s ≡ m k)

abbrev text_of : Option Blob → Option Text
text_of none = none
text_of (some b) = some b.text

find_blob-insert :
    (j : Text) (b : Blob) (bs : List Blob)
    → text_of (find_blob j (bs ++ b ∷ [])) ≡ elim (find_blob j bs) [
      | some c ↦ some c.text
      | none ↦ if text_eq b.id j then some b.text else none
    ]
unfolding find_blob
find_blob-insert j b [] = ground arith
find_blob-insert j b (c ∷ bs) = ground (arith, find_blob-insert j b bs)

find_blob-extend_row :
    (k t j : Text) (bs : List Blob)
    → text_of (find_blob j (extend_row k t bs))
      ≡ (if text_eq k j then joined t (text_of (find_blob j bs)) else text_of (find_blob j bs))
unfolding find_blob extend_row
find_blob-extend_row k t j [] = ground arith
find_blob-extend_row k t j (c ∷ bs) =
    ground (
      arith,
      find_blob-extend_row k t j bs,
      text_eq_iff c.id k,
      text_eq_iff c.id j,
      text_eq_iff k j,
    )

AllSized-extend_row : (k t : Text) (bs : List Blob) → AllSized bs → AllSized (extend_row k t bs)
unfolding extend_row
AllSized-extend_row k t [] h = tt
AllSized-extend_row k t (b ∷ bs) h = elim (Bool-cases (text_eq b.id k)) [
  | inl e ↦
      rw (extend_row, e)
        (omega (arith, h.0, length-append b.text t), AllSized-extend_row k t bs h.1)
  | inr e ↦ rw (extend_row, e) (h.0, AllSized-extend_row k t bs h.1)
]

AllSized-insert :
    (b : Blob) (bs : List Blob) → b.size ≡ length b.text → AllSized bs → AllSized (bs ++ b ∷ [])
AllSized-insert b [] e h = (e, tt)
AllSized-insert b (c ∷ bs) e h = (h.0, AllSized-insert b bs e h.1)

-- `_get` on the rows.
get_text-rows :
    (k : Text) (s : BlobStore) {bs : List Blob}
    → k ≢ []
    → s.rows ≡ some bs
    → get_text true k s ≡ text_of (find_blob k bs)
unfolding get_text
get_text-rows [] s ne e = absurd (ne refl)
get_text-rows (c ∷ k) s {bs = bs} ne e = elim (Option-cases (find_blob (c ∷ k) bs)) [
  | inl n ↦ rw (get_text, e, n) refl
  | inr (b, f) ↦ rw (get_text, e, f) refl
]

-- Rows that answer as the map says implement it.
rows-Implements :
    (s : BlobStore) (m : Contents) (bs : List Blob)
    → s.rows ≡ some bs
    → AllSized bs
    → m [] ≡ none
    → ((j : Text) → j ≢ [] → text_of (find_blob j bs) ≡ m j)
    → Implements s m
unfolding get_text
rows-Implements s m bs rows sized no_id h = (bs, rows, sized, answer)
  where
    answer : (j : Text) → get_text true j s ≡ m j
    answer [] = sym no_id
    answer (c ∷ j) =
        let ne : (c ∷ j) ≢ [] = λ e. absurd (ground (arith, e)) in
        get_text-rows (c ∷ j) s {bs = bs} ne rows ∙ h (c ∷ j) ne

no_id-Implements : (s : BlobStore) (m : Contents) → Implements s m → m [] ≡ none
unfolding get_text
no_id-Implements s m (bs, rows, sized, same) = sym (same [])

abbrev new_blob : Text → Blob
new_blob k = record { id = k; size = 0; text = [] }

open_blob-rows :
    (k : Text) (s : BlobStore) {bs : List Blob}
    → s.rows ≡ some bs
    → find_blob k bs ≡ none
    → (open_blob true k s).rows ≡ some (bs ++ new_blob k ∷ [])
unfolding open_blob
open_blob-rows k s rows absent = rw (open_blob, rows, absent) refl

open_blob-Implements :
    (k : Text) (s : BlobStore) (m : Contents)
    → k ≢ []
    → m k ≡ none
    → Implements s m
    → Implements (open_blob true k s) (opened k m)
open_blob-Implements k s m ne fresh (bs, rows, sized, same) =
    let seen : text_of (find_blob k bs) ≡ none =
      sym (get_text-rows k s {bs = bs} ne rows) ∙ same k ∙ fresh in
    let absent : find_blob k bs ≡ none = ground (arith, seen) in
    rows-Implements (open_blob true k s) (opened k m) (bs ++ new_blob k ∷ [])
      (open_blob-rows k s {bs = bs} rows absent) (AllSized-insert (new_blob k) bs refl sized)
      (ground (arith, text_eq_iff k [], ne, no_id-Implements s m (bs, rows, sized, same)))
      (λ j nj. ground (
        arith,
        find_blob-insert j (new_blob k) bs,
        sym (get_text-rows j s {bs = bs} nj rows) ∙ same j,
        text_eq_iff k j,
        seen,
      ))

append_blob-rows :
    (k t : Text) (s : BlobStore) {bs : List Blob}
    → s.rows ≡ some bs
    → t ≢ []
    → (append_blob true k t s).0.rows ≡ some (extend_row k t bs)
unfolding append_blob append_text
append_blob-rows k [] s rows ne = absurd (ne refl)
append_blob-rows k (c ∷ t) s rows ne = rw (append_blob, append_text, rows) refl

append_text-Implements :
    (k t : Text) (s : BlobStore) (m : Contents)
    → t ≢ []
    → Implements s m
    → Implements (append_blob true k t s).0 (appended k t m)
append_text-Implements k t s m ne (bs, rows, sized, same) =
    rows-Implements (append_blob true k t s).0 (appended k t m) (extend_row k t bs)
      (append_blob-rows k t s {bs = bs} rows ne) (AllSized-extend_row k t bs sized)
      (ground (arith, no_id-Implements s m (bs, rows, sized, same)))
      (λ j nj.
        ground (
          arith,
          find_blob-extend_row k t j bs,
          sym (get_text-rows j s {bs = bs} nj rows) ∙ same j,
        ))

joined_nil : (o : Option Text) → joined [] o ≡ o
joined_nil none = refl
joined_nil (some u) = ap some (append-nil u)

append_blob-Implements :
    (k t : Text) (s : BlobStore) (m : Contents)
    → Implements s m
    → Implements (append_blob true k t s).0 (appended k t m)
unfolding append_blob
append_blob-Implements k [] s m (bs, rows, sized, same) =
    (bs, rows, sized, λ j. same j ∙ ground (arith, joined_nil (m j)))
append_blob-Implements k (c ∷ t) s m h =
    append_text-Implements k (c ∷ t) s m (λ e. absurd (ground (arith, e))) h

-- A call on a store with a working database, for a new identifier where it makes one up, does to
-- the texts what the map expects: `open` adds an empty text, `append` extends that of a known
-- identifier only, `put` adds its text.
blob_call-Implements :
    (c : BlobCall) (s : BlobStore) (m : Contents)
    → IsFresh c m
    → Implements s m
    → Implements (blob_call c s) (expected c m)
unfolding blob_call expected put_blob
blob_call-Implements (opening k) s m (ne, fresh) h = open_blob-Implements k s m ne fresh h
blob_call-Implements (appending k t) s m fresh h = append_blob-Implements k t s m h
blob_call-Implements (putting k t) s m (ne, fresh) h =
    append_blob-Implements k t (open_blob true k s) (opened k m)
      (open_blob-Implements k s m ne fresh h)

unfoldable pub blob_calls : List BlobCall → BlobStore → BlobStore
unfolding blob_call
blob_calls [] s = s
blob_calls (c ∷ cs) s = blob_calls cs (blob_call c s)

unfoldable pub all_expected : List BlobCall → Contents → Contents
unfolding expected
all_expected [] m = m
all_expected (c ∷ cs) m = all_expected cs (expected c m)

abbrev pub AllFresh : List BlobCall → Contents → Type 0
AllFresh [] m = Unit
AllFresh (c ∷ cs) m = IsFresh c m × AllFresh cs (expected c m)

-- The store with a working database refines a map from identifiers to texts: whatever sequence of
-- `open`, `append` and `put` is called, with new identifiers where they are made up, `_get` answers
-- for every identifier what the map has, and each row's size is the length of its text. In the map,
-- `open` adds an empty text, `append` extends the text of a known identifier, and `put` adds a text.
pub blob_calls-Implements :
    (cs : List BlobCall) (s : BlobStore) (m : Contents)
    → AllFresh cs m
    → Implements s m
    → Implements (blob_calls cs s) (all_expected cs m)
unfolding blob_calls all_expected
blob_calls-Implements [] s m fresh h = h
blob_calls-Implements (c ∷ cs) s m (fresh, later) h =
    blob_calls-Implements cs (blob_call c s) (expected c m) later
      (blob_call-Implements c s m fresh h)
