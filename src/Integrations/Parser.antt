-- ===== src/Integrations/Parser.antt =====
-- app/integrations/webhook_parser.py: the events of a webhook body.
pub mod Json
pub mod Events
pub mod Webhook
pub mod Items
pub mod Conservation
