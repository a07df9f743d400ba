-- ===== src/Ai/ContextBudget.antt =====
-- astra/ai/context_budget.py: the estimate of a prompt's size, and the messages that are dropped to
-- make it fit. A text is the list of its code points. A window or a reserve that is negative or no
-- number counts as 0.
pub mod Fitting
mod Tests
use astra_ai_agent.Prelude.{
  ℕ, zero, suc, ◌+◌, ◌-◌, ◌/◌, Bool, true, false, Option, none, some, List, [], ◌∷◌, ◌++◌, String,
  str_eq, length, leb, ◌==◌, if◌then◌else◌,
}
use astra_ai_agent.Prelude.Text.{Text}

-- The content of a message: a string, a list of parts with or without text, or another value with
-- the text that `str` makes of it.
pub data Content : Type 0 where
  text : Text → Content
  parts : List (Option Text) → Content
  other : Text → Content

pub record Message : Type 0 where
  pub role : String
  pub content : Content

-- `estimate_tokens_from_chars`
unfoldable pub estimate_tokens_from_chars : ℕ → ℕ
estimate_tokens_from_chars chars = chars / 4

unfoldable pub parts_chars : List (Option Text) → ℕ
parts_chars [] = 0
parts_chars (none ∷ ps) = parts_chars ps
parts_chars (some t ∷ ps) = length t + parts_chars ps

-- `_content_chars`
unfoldable pub content_chars : Content → ℕ
unfolding parts_chars
content_chars (text t) = length t
content_chars (parts ps) = parts_chars ps
content_chars (other t) = length t

unfoldable pub sum_chars : List Message → ℕ
sum_chars [] = 0
sum_chars (m ∷ ms) = content_chars m.content + sum_chars ms

unfoldable pub estimate_message_tokens : List Message → ℕ
unfolding sum_chars estimate_tokens_from_chars
estimate_message_tokens ms = estimate_tokens_from_chars (sum_chars ms)

abbrev at_least : ℕ → ℕ → ℕ
at_least n k = if leb n k then k else n

unfoldable pub default_reserve_tokens : ℕ → ℕ
default_reserve_tokens window = if window == 0 then 0 else at_least 256 (window / 8)

-- The leading system messages, and the rest.
unfoldable pub span_system : List Message → List Message × List Message
span_system [] = ([], [])
span_system (m ∷ ms) =
    let rest = span_system ms in
    if str_eq m.role "system" then (m ∷ rest.0, rest.1) else ([], m ∷ ms)

-- All but the last message, and the last one.
unfoldable pub split_last : List Message → List Message × List Message
split_last [] = ([], [])
split_last (m ∷ []) = ([], m ∷ [])
split_last (m ∷ n ∷ ms) = let rest = split_last (n ∷ ms) in (m ∷ rest.0, rest.1)

abbrev pub fits : ℕ → List Message → Bool
fits budget ms = leb (estimate_message_tokens ms) budget

-- The loop over the droppable messages, oldest first.
unfoldable pub drop_oldest : ℕ → List Message → List Message → List Message → List Message
drop_oldest budget pre [] post = pre ++ post
drop_oldest budget pre (m ∷ ms) post =
    let rest = drop_oldest budget pre ms post in
    if fits budget (pre ++ ((m ∷ ms) ++ post)) then pre ++ ((m ∷ ms) ++ post) else rest

abbrev pub budget_of : ℕ → ℕ → ℕ
budget_of window reserve = at_least 1 (window - reserve)

unfoldable pub fit_messages : List Message → ℕ → ℕ → List Message
fit_messages messages window reserve =
    let head = span_system messages in
    let tail = split_last head.1 in
    let cut = drop_oldest (budget_of window reserve) head.0 tail.0 tail.1 in
    if window == 0
    then messages
    else if fits (budget_of window reserve) messages
    then messages
    else cut
