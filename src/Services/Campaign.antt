-- ===== src/Services/Campaign.antt =====
-- app/services/campaign_service.py: creating, staging and executing a campaign.
pub mod Data
pub mod Stage
pub mod Execute
