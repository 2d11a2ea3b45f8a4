-- ===== src/Workers.antt =====
-- app/workers.
pub mod Tasks
