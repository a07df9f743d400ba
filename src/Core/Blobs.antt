-- ===== src/Core/Blobs.antt =====
-- astra/core/blob_store.py: large texts, kept whole and read in bounded chunks. A call of the
-- database either works or raises, as a parameter of the call says; the identifiers that `_new_id`
-- makes up are parameters. A row keeps no kind and no time.
pub mod Reading
pub mod Refines
pub mod Bounded
mod Tests
use astra_ai_agent.Prelude.{
  ℕ, zero, suc, ◌+◌, ◌-◌, ◌*◌, Bool, true, false, ◌&&◌, not, List, [], ◌∷◌, ◌++◌, Option, none,
  some, ltb, leb, ◌==◌, length, take, drop, if◌then◌else◌,
}
use astra_ai_agent.Prelude.Int.{ℤ, pos, negsuc, pos_part, truthy_ℤ}
use astra_ai_agent.Prelude.Text.{Text, text_eq}

-- DEFAULT_CHUNK_CHARS and _FALLBACK_MAX_BYTES
abbrev pub default_chunk_chars : ℕ
default_chunk_chars = 6000

abbrev pub fallback_max_bytes : ℕ
fallback_max_bytes = 20000000

-- A row of `output_blobs`.
pub record Blob : Type 0 where
  pub id : Text
  pub size : ℕ
  pub text : Text

-- The rows of the database, `none` when there is none; the texts in memory, oldest first; and their
-- size as it is counted.
pub record BlobStore : Type 0 where
  pub rows : Option (List Blob)
  pub mem : List (Text × Text)
  pub mem_bytes : ℕ

unfoldable pub find_blob : Text → List Blob → Option Blob
find_blob k [] = none
find_blob k (b ∷ bs) = if text_eq b.id k then some b else find_blob k bs

-- `UPDATE ... SET text = text || ?, size = size + ?`
unfoldable pub extend_row : Text → Text → List Blob → List Blob
extend_row k t [] = []
extend_row k t (b ∷ bs) =
    let rest = extend_row k t bs in
    (if text_eq b.id k then record b { size = b.size + length t; text = b.text ++ t } else b) ∷ rest

unfoldable pub find_text : Text → List (Text × Text) → Option Text
find_text k [] = none
find_text k ((j, t) ∷ ts) = if text_eq j k then some t else find_text k ts

unfoldable pub drop_text : Text → List (Text × Text) → List (Text × Text)
drop_text k [] = []
drop_text k ((j, t) ∷ ts) = let rest = drop_text k ts in if text_eq j k then ts else (j, t) ∷ rest

-- `self._mem[k] = t`, where a new key goes to the end.
unfoldable pub set_text : Text → Text → List (Text × Text) → List (Text × Text)
set_text k t [] = (k, t) ∷ []
set_text k t ((j, u) ∷ ts) =
    let rest = set_text k t ts in if text_eq j k then (j, t) ∷ ts else (j, u) ∷ rest

-- The text of a blob that is not there is empty.
abbrev pub text_or_empty : Option Text → Text
text_or_empty none = []
text_or_empty (some t) = t

-- The loop that evicts the oldest texts, with the count of bytes; the text `k` is put back.
unfoldable pub evict : Text → ℕ → List (Text × Text) → List (Text × Text) × ℕ
evict k bytes [] = ([], bytes)
evict k bytes (t ∷ []) = (t ∷ [], bytes)
evict k bytes ((j, t) ∷ u ∷ ts) = elim (ltb fallback_max_bytes bytes) [
  | false ↦ ((j, t) ∷ u ∷ ts, bytes)
  | true ↦ elim (text_eq j k) [
    | true ↦ ((u ∷ ts) ++ (j, t) ∷ [], bytes)
    | false ↦ evict k (bytes - length t) (u ∷ ts)
  ]
]

unfoldable pub open_in_memory : Text → BlobStore → BlobStore
unfolding set_text
open_in_memory k s = record s { rows = none; mem = set_text k [] s.mem }

-- `open`: the insertion raises for an identifier that is there.
unfoldable pub open_blob : Bool → Text → BlobStore → BlobStore
unfolding open_in_memory find_blob
open_blob works k s = elim s.rows [
  | none ↦ open_in_memory k s
  | some bs ↦ elim works [
    | false ↦ open_in_memory k s
    | true ↦ elim (find_blob k bs) [
      | some b ↦ open_in_memory k s
      | none ↦ record s { rows = some (bs ++ (record { id = k; size = 0; text = [] }) ∷ []) }
    ]
  ]
]

unfoldable pub append_in_memory : Text → Text → BlobStore → BlobStore × ℕ
unfolding find_text drop_text evict
append_in_memory k t s =
    let full = text_or_empty (find_text k s.mem) ++ t in
    let kept = evict k (s.mem_bytes + length t) (drop_text k s.mem ++ (k, full) ∷ []) in
    (record s { rows = none; mem = kept.0; mem_bytes = kept.1 }, length full)

-- `_get`; an error of the database counts as no text.
unfoldable pub get_text : Bool → Text → BlobStore → Option Text
unfolding find_text find_blob
get_text works [] s = none
get_text works (c ∷ k) s = elim s.rows [
  | none ↦ find_text (c ∷ k) s.mem
  | some bs ↦ elim works [
    | false ↦ none
    | true ↦ elim (find_blob (c ∷ k) bs) [ none ↦ none | some b ↦ some b.text ]
  ]
]

unfoldable pub blob_size : Bool → Text → BlobStore → ℕ
unfolding get_text
blob_size works k s = length (text_or_empty (get_text works k s))

-- The size that a row has after an extension, and the length of the new text for no row.
unfoldable pub row_size : Text → Text → List Blob → ℕ
unfolding find_blob
row_size k t bs = elim (find_blob k bs) [ none ↦ length t | some b ↦ b.size ]

-- `append` of a text that is not empty.
unfoldable pub append_text : Bool → Text → Text → BlobStore → BlobStore × ℕ
unfolding append_in_memory extend_row row_size
append_text works k t s = elim s.rows [
  | none ↦ append_in_memory k t s
  | some bs ↦ elim works [
    | false ↦ append_in_memory k t s
    | true ↦ (record s { rows = some (extend_row k t bs) }, row_size k t (extend_row k t bs))
  ]
]

-- `append`: the store, and the size that is returned.
unfoldable pub append_blob : Bool → Text → Text → BlobStore → BlobStore × ℕ
unfolding append_text blob_size
append_blob works k [] s = (s, blob_size works k s)
append_blob works k (c ∷ t) s = append_text works k (c ∷ t) s

-- `put`
unfoldable pub put_blob : Bool → Text → Text → BlobStore → BlobStore × ℕ
unfolding open_blob append_blob
put_blob works k t s = append_blob works k t (open_blob works k s)

-- What `read` returns for a text.
pub record Chunk : Type 0 where
  pub offset : ℕ
  pub total_chars : ℕ
  pub chars_returned : ℕ
  pub text : Text
  pub done : Bool
  pub next_offset : Option ℕ

-- `length or DEFAULT_CHUNK_CHARS`
unfoldable pub length_or_default : ℤ → ℤ
length_or_default n = if truthy_ℤ n then n else pos default_chunk_chars

-- `max(1, min(n, DEFAULT_CHUNK_CHARS * 4))`
unfoldable pub clamp : ℤ → ℕ
clamp (negsuc _) = 1
clamp (pos n) =
    let most = default_chunk_chars * 4 in
    let least = if leb n most then n else most in if leb 1 least then least else 1

unfoldable pub chunk_length : ℤ → ℕ
unfolding length_or_default clamp
chunk_length n = clamp (length_or_default n)

-- `read` of a text, from `max(0, offset)` on.
unfoldable pub chunk_of : Text → ℤ → ℤ → Chunk
unfolding chunk_length
chunk_of text offset n =
    let start = pos_part offset in
    let chunk = take (chunk_length n) (drop start text) in
    let next = start + length chunk in
    record {
      offset = start;
      total_chars = length text;
      chars_returned = length chunk;
      text = chunk;
      done = leb (length text) next;
      next_offset = if leb (length text) next then none else some next;
    }

-- `read`: `none` is the error for an unknown identifier.
unfoldable pub read_blob : Bool → Text → ℤ → ℤ → BlobStore → Option Chunk
unfolding get_text chunk_of
read_blob works k offset n s = elim (get_text works k s) [
  | none ↦ none
  | some t ↦ some (chunk_of t offset n)
]
