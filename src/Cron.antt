-- ===== src/Cron.antt =====
-- The cron service: schedules, the table of jobs and the polling loop.
pub mod Schedule
pub mod Table
pub mod Service
