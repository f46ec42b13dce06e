-- ===== src/Cron/Service/Ticks.antt =====
-- What a tick fires and what it leaves behind.
pub mod Due
pub mod Once
pub mod Waiting
