-- ===== src/Services/Response.antt =====
-- app/services/response_service.py: the reply that is sent for an analysed message.
pub mod Sanitise
pub mod Fragments
pub mod Compose
pub mod Limits
pub mod Stages
