-- ===== src/Pairing.antt =====
-- Who may talk to the bot: the tables of crates/oxicrab-memory/src/memory_db/pairing.rs, the store of
-- src/pairing/mod.rs and the access checks of crates/oxicrab-channels/src/utils/mod.rs.
pub mod Tables
pub mod Store
pub mod Access
