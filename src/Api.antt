-- ===== src/Api.antt =====
-- app/api: the HTTP boundary.
pub mod Webhooks
