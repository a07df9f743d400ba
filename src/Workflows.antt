-- ===== src/Workflows.antt =====
-- astra/workflows/engine.py: steps, their validation and order, stored definitions, and runs.
pub mod Graph
pub mod Names
pub mod Steps
pub mod Definitions
pub mod Resolve
pub mod Runs
pub mod Outcome
pub mod Execution
mod Tests
