-- ===== src/Bus.antt =====
-- The message bus between the channels and the agent: src/bus.
pub mod Queue
