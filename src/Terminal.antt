-- ===== src/Terminal.antt =====
-- astra/terminal: what a host command needs before it runs.
pub mod Approval
