-- ===== src/Domain/Enums/Templates.antt =====
-- The enumerations of app/domain/enums.py about templates and campaigns. Equality of members is
-- `is`.
use whatsapp_bot.Prelude.{ℕ, String, ◌≡◌, ◌↔◌, Bool, true, arith, Eq, nat_eq, ◌==◌}

pub data TemplateCategory : Type 0 where
  marketing utility authentication : TemplateCategory

abbrev pub template_category_index : TemplateCategory → ℕ
template_category_index TemplateCategory.marketing = 0
template_category_index TemplateCategory.utility = 1
template_category_index TemplateCategory.authentication = 2

abbrev pub template_category_beq : TemplateCategory → TemplateCategory → Bool
template_category_beq a b = template_category_index a == template_category_index b

pub template_category_beq_iff :
    (a b : TemplateCategory) → (template_category_beq a b ≡ true) ↔ (a ≡ b)
template_category_beq_iff a b = ground arith

instance abbrev pub template_category_eq : Eq TemplateCategory
template_category_eq = record { beq = template_category_beq; beq_iff = template_category_beq_iff }

pub data TemplateStatus : Type 0 where
  approved pending rejected paused disabled : TemplateStatus

-- `TemplateStatus.value`
abbrev pub template_status_value : TemplateStatus → String
template_status_value TemplateStatus.approved = "APPROVED"
template_status_value TemplateStatus.pending = "PENDING"
template_status_value TemplateStatus.rejected = "REJECTED"
template_status_value TemplateStatus.paused = "PAUSED"
template_status_value TemplateStatus.disabled = "DISABLED"

abbrev pub template_status_index : TemplateStatus → ℕ
template_status_index TemplateStatus.approved = 0
template_status_index TemplateStatus.pending = 1
template_status_index TemplateStatus.rejected = 2
template_status_index TemplateStatus.paused = 3
template_status_index TemplateStatus.disabled = 4

abbrev pub template_status_beq : TemplateStatus → TemplateStatus → Bool
template_status_beq a b = template_status_index a == template_status_index b

pub template_status_beq_iff : (a b : TemplateStatus) → (template_status_beq a b ≡ true) ↔ (a ≡ b)
template_status_beq_iff a b = ground arith

instance abbrev pub template_status_eq : Eq TemplateStatus
template_status_eq = record { beq = template_status_beq; beq_iff = template_status_beq_iff }

pub data CampaignStatus : Type 0 where
  draft validated queued running paused completed failed cancelled : CampaignStatus

-- `CampaignStatus.value`
abbrev pub campaign_status_value : CampaignStatus → String
campaign_status_value CampaignStatus.draft = "draft"
campaign_status_value CampaignStatus.validated = "validated"
campaign_status_value CampaignStatus.queued = "queued"
campaign_status_value CampaignStatus.running = "running"
campaign_status_value CampaignStatus.paused = "paused"
campaign_status_value CampaignStatus.completed = "completed"
campaign_status_value CampaignStatus.failed = "failed"
campaign_status_value CampaignStatus.cancelled = "cancelled"

abbrev pub campaign_status_index : CampaignStatus → ℕ
campaign_status_index CampaignStatus.draft = 0
campaign_status_index CampaignStatus.validated = 1
campaign_status_index CampaignStatus.queued = 2
campaign_status_index CampaignStatus.running = 3
campaign_status_index CampaignStatus.paused = 4
campaign_status_index CampaignStatus.completed = 5
campaign_status_index CampaignStatus.failed = 6
campaign_status_index CampaignStatus.cancelled = 7

abbrev pub campaign_status_beq : CampaignStatus → CampaignStatus → Bool
campaign_status_beq a b = campaign_status_index a == campaign_status_index b

pub campaign_status_beq_iff : (a b : CampaignStatus) → (campaign_status_beq a b ≡ true) ↔ (a ≡ b)
campaign_status_beq_iff a b = ground arith

instance abbrev pub campaign_status_eq : Eq CampaignStatus
campaign_status_eq = record { beq = campaign_status_beq; beq_iff = campaign_status_beq_iff }

pub data CampaignRecipientStatus : Type 0 where
  pending eligible rejected queued sent delivered read failed skipped : CampaignRecipientStatus

-- `CampaignRecipientStatus.value`
abbrev pub campaign_recipient_status_value : CampaignRecipientStatus → String
campaign_recipient_status_value CampaignRecipientStatus.pending = "pending"
campaign_recipient_status_value CampaignRecipientStatus.eligible = "eligible"
campaign_recipient_status_value CampaignRecipientStatus.rejected = "rejected"
campaign_recipient_status_value CampaignRecipientStatus.queued = "queued"
campaign_recipient_status_value CampaignRecipientStatus.sent = "sent"
campaign_recipient_status_value CampaignRecipientStatus.delivered = "delivered"
campaign_recipient_status_value CampaignRecipientStatus.read = "read"
campaign_recipient_status_value CampaignRecipientStatus.failed = "failed"
campaign_recipient_status_value CampaignRecipientStatus.skipped = "skipped"

abbrev pub campaign_recipient_status_index : CampaignRecipientStatus → ℕ
campaign_recipient_status_index CampaignRecipientStatus.pending = 0
campaign_recipient_status_index CampaignRecipientStatus.eligible = 1
campaign_recipient_status_index CampaignRecipientStatus.rejected = 2
campaign_recipient_status_index CampaignRecipientStatus.queued = 3
campaign_recipient_status_index CampaignRecipientStatus.sent = 4
campaign_recipient_status_index CampaignRecipientStatus.delivered = 5
campaign_recipient_status_index CampaignRecipientStatus.read = 6
campaign_recipient_status_index CampaignRecipientStatus.failed = 7
campaign_recipient_status_index CampaignRecipientStatus.skipped = 8

abbrev pub campaign_recipient_status_beq : CampaignRecipientStatus → CampaignRecipientStatus → Bool
campaign_recipient_status_beq a b =
    campaign_recipient_status_index a == campaign_recipient_status_index b

pub campaign_recipient_status_beq_iff :
    (a b : CampaignRecipientStatus) → (campaign_recipient_status_beq a b ≡ true) ↔ (a ≡ b)
campaign_recipient_status_beq_iff a b = ground arith

instance abbrev pub campaign_recipient_status_eq : Eq CampaignRecipientStatus
campaign_recipient_status_eq = record {
  beq = campaign_recipient_status_beq;
  beq_iff = campaign_recipient_status_beq_iff;
}
