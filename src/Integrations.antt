-- ===== src/Integrations.antt =====
-- The clients and parsers of app/integrations.
pub mod Client
pub mod Parser
