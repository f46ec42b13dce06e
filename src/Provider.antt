-- ===== src/Provider.antt =====
-- The language-model provider wrappers of crates/oxicrab-providers.
pub mod Breaker
pub mod Fallback
