-- ===== src/Tests.antt =====
-- Theorems at concrete inputs.
mod Rules
mod Client
mod Replies
mod Parser
mod Endpoint
mod Tables
mod Consent
mod Campaign
mod Conversation
