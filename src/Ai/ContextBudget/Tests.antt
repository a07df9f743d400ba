-- ===== src/Ai/ContextBudget/Tests.antt =====
-- A conversation that does not fit.
use astra_ai_agent.Prelude.{ℕ, ◌≡◌, ◌⊎◌, refl, true, false, List, [], ◌∷◌, replicate}
use astra_ai_agent.Ai.ContextBudget.{
  Message, text, estimate_tokens_from_chars, content_chars, sum_chars, estimate_message_tokens,
  span_system, split_last, fits, drop_oldest, budget_of, fit_messages,
}
use astra_ai_agent.Ai.ContextBudget.Fitting.{
  AreParts, Cut, system_part, middle_part, last_part, fit_messages_lem,
}

abbrev system : Message
system = record { role = "system"; content = text (replicate 8 65) }

abbrev old : Message
old = record { role = "user"; content = text (replicate 40 66) }

abbrev recent : Message
recent = record { role = "assistant"; content = text (replicate 12 67) }

abbrev question : Message
question = record { role = "user"; content = text (replicate 4 68) }

abbrev conversation : List Message
conversation = system ∷ old ∷ recent ∷ question ∷ []

abbrev window : ℕ
window = 10

oldest_dropped : fit_messages conversation 10 4 ≡ system ∷ recent ∷ question ∷ []
unfolding fit_messages span_system split_last drop_oldest estimate_message_tokens sum_chars
    content_chars estimate_tokens_from_chars
oldest_dropped = refl

fit_messages_lem_example :
    AreParts conversation
    × (((fit_messages conversation window 4 ≡ conversation)
          × ((window ≡ 0) ⊎ (fits (budget_of window 4) conversation ≡ true)))
        ⊎ ((fits (budget_of window 4) conversation ≡ false)
            × Cut
                (budget_of window 4)
                (system_part conversation)
                (middle_part conversation)
                (last_part conversation)
                (fit_messages conversation window 4)))
fit_messages_lem_example = fit_messages_lem conversation window 4
