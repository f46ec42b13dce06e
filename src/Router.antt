-- ===== src/Router.antt =====
-- The message router (crates/oxicrab-router): its triggers, its context and its decision.
pub mod Triggers
pub mod Context
pub mod Rules
pub mod Route
