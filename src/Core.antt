-- ===== src/Core.antt =====
-- app/core, as far as it has rules of its own.
pub mod Security
