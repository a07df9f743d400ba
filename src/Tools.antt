-- ===== src/Tools.antt =====
-- astra/tools: the tools that the agent and the workflows call.
pub mod Schemas
pub mod Registry
