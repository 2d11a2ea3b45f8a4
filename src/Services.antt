-- ===== src/Services.antt =====
-- The services of app/services.
pub mod Consent
pub mod Campaign
pub mod Escalation
pub mod Intent
pub mod Response
pub mod Quiet
pub mod Conversation
