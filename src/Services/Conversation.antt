-- ===== src/Services/Conversation.antt =====
-- app/services/conversation_service.py: inbound messages, and the delivery
-- statuses of sent messages.
pub mod Inbound
pub mod Handle
pub mod Steps
pub mod Texts
pub mod Pauses
pub mod Receipt
pub mod OptOut
pub mod Statuses
pub mod Failures
