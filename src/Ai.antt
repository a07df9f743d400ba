-- ===== src/Ai.antt =====
-- astra/ai: how the program fits its prompts to a model.
pub mod ContextBudget
