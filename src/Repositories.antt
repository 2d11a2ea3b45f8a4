-- ===== src/Repositories.antt =====
-- app/repositories: the queries and updates of each table.
pub mod Contacts
pub mod Consents
pub mod Messages
pub mod Conversations
pub mod Webhooks
pub mod Campaigns
pub mod Escalations
pub mod Quiet
