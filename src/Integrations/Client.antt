-- ===== src/Integrations/Client.antt =====
-- The WhatsApp client of app/integrations/whatsapp_client.py.
pub mod Breaker
pub mod Request
pub mod Payloads
