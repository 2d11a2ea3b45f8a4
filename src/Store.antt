-- ===== src/Store.antt =====
-- The database, and the sessions in which services change it (app/core/db.py).
pub mod Rows
pub mod Unique
pub mod Session
pub mod Quiet
