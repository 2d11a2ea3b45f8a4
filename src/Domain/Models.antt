-- ===== src/Domain/Models.antt =====
-- app/domain/models.py: one record for each table row. A foreign key is the id of its row, a
-- moment is in microseconds since the epoch. Columns that no modelled code reads or writes
-- (`updated_at`, tags, external ids) are left out, and a stored intent is the member.
use whatsapp_bot.Prelude.{ℕ, String, Bool, Option, List}
use whatsapp_bot.Domain.Enums.{
  Direction, MessageType, DeliveryStatus, ConversationState, ConsentStatus, ConsentPurpose,
  CampaignStatus, CampaignRecipientStatus, Intent, EscalationReason, EscalationStatus,
}

pub record Contact : Type 0 where
  pub id : ℕ
  pub business_id : String
  pub phone_hash : String
  pub phone_encrypted : String
  pub phone_masked : String
  pub first_name : Option String
  pub locale : String
  pub consent_status : ConsentStatus
  pub bot_paused : Bool
  pub pause_reason : Option String
  pub last_inbound_at : Option ℕ
  pub last_outbound_at : Option ℕ

pub record Conversation : Type 0 where
  pub id : ℕ
  pub business_id : String
  pub contact_id : ℕ
  pub state : ConversationState
  pub last_intent : Option Intent
  pub last_confidence : Option ℕ
  pub escalated : Bool
  pub human_agent : Option String
  pub service_window_expires_at : Option ℕ
  pub expires_at : Option ℕ
  pub closed_at : Option ℕ
  pub correlation_id : Option String

pub record Message : Type 0 where
  pub id : ℕ
  pub business_id : String
  pub conversation_id : ℕ
  pub contact_id : ℕ
  pub meta_message_id : Option String
  pub direction : Direction
  pub message_type : MessageType
  pub content_encrypted : Option String
  pub content_preview : Option String
  pub intent : Option Intent
  pub confidence : Option ℕ
  pub delivery_status : Option DeliveryStatus
  pub error_code : Option ℕ
  pub error_detail : Option String
  pub template_name : Option String
  pub template_language : Option String
  pub campaign_id : Option ℕ
  pub correlation_id : Option String
  pub sent_at : Option ℕ
  pub delivered_at : Option ℕ
  pub read_at : Option ℕ
  pub created_at : ℕ

pub record ConsentRecord : Type 0 where
  pub id : ℕ
  pub business_id : String
  pub contact_id : ℕ
  pub status : ConsentStatus
  pub purpose : ConsentPurpose
  pub source : String
  pub occurred_at : ℕ
  pub evidence : Option String
  pub correlation_id : Option String

pub record SuppressionEntry : Type 0 where
  pub id : ℕ
  pub business_id : String
  pub phone_hash : String
  pub phone_masked : String
  pub reason : String
  pub detail : Option String
  pub suppressed_at : ℕ

pub record Campaign : Type 0 where
  pub id : ℕ
  pub business_id : String
  pub name : String
  pub template_name : String
  pub template_language : String
  pub status : CampaignStatus
  pub pause_reason : Option String
  pub total : ℕ
  pub eligible : ℕ
  pub rejected : ℕ
  pub sent : ℕ
  pub delivered : ℕ
  pub read : ℕ
  pub failed : ℕ
  pub started_at : Option ℕ
  pub completed_at : Option ℕ
  pub correlation_id : Option String

pub record CampaignRecipient : Type 0 where
  pub id : ℕ
  pub campaign_id : ℕ
  pub contact_id : ℕ
  pub status : CampaignRecipientStatus
  pub rejection_reason : Option String
  pub template_variables : List (String × String)
  pub meta_message_id : Option String
  pub error_code : Option ℕ
  pub error_detail : Option String
  pub sent_at : Option ℕ

pub record Escalation : Type 0 where
  pub id : ℕ
  pub business_id : String
  pub conversation_id : ℕ
  pub contact_id : ℕ
  pub reason : EscalationReason
  pub status : EscalationStatus
  pub summary : String
  pub detected_intent : Option Intent
  pub confidence : Option ℕ
  pub assigned_to : Option String
  pub resolution_note : Option String
  pub resolved_at : Option ℕ
  pub correlation_id : Option String
  pub crm_reference : Option String

pub record WebhookEvent : Type 0 where
  pub id : ℕ
  pub business_id : String
  pub event_key : String
  pub event_type : String
  pub processed : Bool
  pub attempts : ℕ
  pub last_error : Option String
  pub correlation_id : Option String
  pub processed_at : Option ℕ
  pub created_at : ℕ

pub record DeadLetter : Type 0 where
  pub id : ℕ
  pub business_id : String
  pub source : String
  pub event_key : Option String
  pub error : String
  pub attempts : ℕ
  pub resolved : Bool
  pub correlation_id : Option String

pub record BotState : Type 0 where
  pub id : ℕ
  pub business_id : String
  pub paused : Bool
  pub pause_reason : Option String
  pub paused_by : Option String
  pub paused_at : Option ℕ
