-- ===== src/Agent.antt =====
-- The agent side of the program: src/agent.
pub mod Approval
pub mod Stash
pub mod Truncation
