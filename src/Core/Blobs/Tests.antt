-- ===== src/Core/Blobs/Tests.antt =====
-- The blob store at concrete texts.
use astra_ai_agent.Prelude.{◌≡◌, ◌≤◌, ◌⊎◌, refl, true, false, List, [], ◌∷◌, none, some, arith}
use astra_ai_agent.Prelude.Text.{Text, codes, text_eq}
use astra_ai_agent.Core.Blobs.{
  BlobStore, find_text, get_text, append_in_memory, append_blob, fallback_max_bytes,
}
use astra_ai_agent.Prelude.Int.{negsuc}
use astra_ai_agent.Core.Blobs.Reading.{read_on, read_on_lem}
use astra_ai_agent.Core.Blobs.Refines.{
  BlobCall, opening, appending, putting, Contents, Implements, blob_calls, expected, all_expected,
  blob_calls-Implements,
}
use astra_ai_agent.Core.Blobs.Bounded.{total, IsCounted, append_in_memory_lem}

abbrev page : Text
page = codes "page_1"

abbrev log : Text
log = codes "log_2"

abbrev fresh_store : BlobStore
fresh_store = record { rows = some []; mem = []; mem_bytes = 0 }

abbrev no_database : BlobStore
no_database = record { rows = none; mem = []; mem_bytes = 0 }

abbrev nothing_yet : Contents
nothing_yet k = none

abbrev some_calls : List BlobCall
some_calls =
    opening log
    ∷ appending log (codes "one ")
    ∷ putting page (codes "a page")
    ∷ appending log (codes "two")
    ∷ []

abbrev filled : BlobStore
filled = blob_calls some_calls fresh_store

no_text : (k : Text) → get_text true k fresh_store ≡ none
unfolding get_text
no_text [] = refl
no_text (c ∷ k) = refl

blob_calls-Implements_example : Implements filled (all_expected some_calls nothing_yet)
unfolding text_eq get_text expected
blob_calls-Implements_example =
    blob_calls-Implements some_calls fresh_store nothing_yet
      (
        (λ e. absurd (ground (arith, e)), refl),
        (tt, ((λ e. absurd (ground (arith, e)), refl), (tt, tt))),
      )
      ([], refl, tt, no_text)

test_filled : get_text true log filled ≡ some (codes "one two")
unfolding get_text blob_calls text_eq
test_filled = refl

abbrev one_two : Text
one_two = codes "one two"

read_on_lem_example : read_on 8 log 0 (negsuc 0) filled ≡ some one_two
read_on_lem_example = read_on_lem log filled one_two test_filled (negsuc 0)

append_in_memory_lem_example :
    IsCounted (append_in_memory log one_two no_database).0
    × (find_text log (append_in_memory log one_two no_database).0.mem ≡ some one_two)
    × ((append_in_memory log one_two no_database).1 ≡ 7)
    × (((append_in_memory log one_two no_database).0.mem_bytes ≤ fallback_max_bytes)
        ⊎ ((append_in_memory log one_two no_database).0.mem ≡ (log, one_two) ∷ []))
unfolding total find_text
append_in_memory_lem_example = append_in_memory_lem log one_two no_database (refl, tt)

abbrev failing : BlobStore
failing = (append_blob false log (codes "three") filled).0

-- An append that the database refuses goes to memory, where the earlier text is not.
test_failing : get_text true log failing ≡ some (codes "three")
unfolding get_text append_blob blob_calls text_eq
test_failing = refl
