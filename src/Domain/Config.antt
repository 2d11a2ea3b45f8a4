-- ===== src/Domain/Config.antt =====
-- app/domain/config_schema.py: the configuration that the rules and services read. A text "HH:MM"
-- is the time that it parses to. Confidences and rates are counted in millionths of 1.
use whatsapp_bot.Prelude.{
  ℕ, zero, suc, ◌+◌, ◌*◌, String, Bool, true, Option, none, some, List, leb, ltb, any, ◌==◌,
  if◌then◌else◌, ◌&&◌,
}
use whatsapp_bot.Domain.Enums.{
  Intent, TemplateCategory, TemplateStatus, template_status_eq, intent_eq,
}

-- `datetime.time(hour, minute)`, in microseconds from midnight
abbrev pub time : ℕ → ℕ → ℕ
time hour minute = (hour * 60 + minute) * 60_000_000

abbrev pub day : ℕ
day = 86_400_000_000

abbrev pub hour_length : ℕ
hour_length = 3_600_000_000

pub record DayHours : Type 0 where
  pub closed : Bool
  pub opens : ℕ
  pub closes : ℕ

-- What `_check_range` lets through.
abbrev pub day_hours_valid : DayHours → Bool
day_hours_valid h = if h.closed then true else ltb h.opens h.closes

pub record BusinessHours : Type 0 where
  pub monday : DayHours
  pub tuesday : DayHours
  pub wednesday : DayHours
  pub thursday : DayHours
  pub friday : DayHours
  pub saturday : DayHours
  pub sunday : DayHours

-- `BusinessHours.for_weekday`; past the tuple Python raises `IndexError`, which is `none`.
unfoldable pub for_weekday : BusinessHours → ℕ → Option DayHours
for_weekday b zero = some b.monday
for_weekday b (suc zero) = some b.tuesday
for_weekday b (suc (suc zero)) = some b.wednesday
for_weekday b (suc (suc (suc zero))) = some b.thursday
for_weekday b (suc (suc (suc (suc zero)))) = some b.friday
for_weekday b (suc (suc (suc (suc (suc zero))))) = some b.saturday
for_weekday b (suc (suc (suc (suc (suc (suc zero)))))) = some b.sunday
for_weekday b (suc (suc (suc (suc (suc (suc (suc _))))))) = none

-- A time zone of `zoneinfo`, which the repository does not implement: the wall clock at a moment,
-- and the moment that a wall clock names, both in microseconds.
pub record Zone : Type 0 where
  pub to_local : ℕ → ℕ
  pub from_local : ℕ → ℕ

pub record EmergencyInfo : Type 0 where
  pub enabled : Bool
  pub message : Option String

pub record BusinessConfig : Type 0 where
  pub business_id : String
  pub name : String
  pub timezone : String
  pub tzinfo : Zone
  pub supported_languages : List String
  pub default_language : String
  pub greeting : String
  pub business_hours : BusinessHours
  pub emergency : EmergencyInfo
  pub human_agent_name : String

pub record ConfidenceThresholds : Type 0 where
  pub reply : ℕ
  pub escalate : ℕ

pub record QuietHours : Type 0 where
  pub enabled : Bool
  pub start : ℕ
  pub finish : ℕ

pub record CampaignLimits : Type 0 where
  pub batch_size : ℕ
  pub max_failure_rate : ℕ
  pub min_sample_before_pause : ℕ

pub record FeatureFlags : Type 0 where
  pub knowledge_retrieval : Bool
  pub campaigns_enabled : Bool
  pub auto_mark_read : Bool
  pub store_message_content : Bool

pub record BusinessHoursBehaviour : Type 0 where
  pub reply_outside_hours : Bool
  pub outside_hours_message : String

pub record BotConfig : Type 0 where
  pub enabled_intents : List Intent
  pub thresholds : ConfidenceThresholds
  pub max_response_chars : ℕ
  pub history_limit : ℕ
  pub conversation_expiry_hours : ℕ
  pub business_hours_behaviour : BusinessHoursBehaviour
  pub quiet_hours : QuietHours
  pub campaign : CampaignLimits
  pub supported_message_types : List String
  pub stop_words : List String
  pub handover_keywords : List String
  pub opt_in_keywords : List String
  pub features : FeatureFlags

-- What the model validators of `ConfidenceThresholds` and `BotConfig` let through.
abbrev pub thresholds_valid : ConfidenceThresholds → Bool
thresholds_valid t = leb t.escalate t.reply

abbrev pub mandatory_compliance_intents : BotConfig → Bool
mandatory_compliance_intents bot =
    any (λ i. i == Intent.opt_out) bot.enabled_intents
    && any (λ i. i == Intent.human_agent_request) bot.enabled_intents

pub record TemplateDefinition : Type 0 where
  pub name : String
  pub language : String
  pub category : TemplateCategory
  pub status : TemplateStatus
  pub requires_opt_in : Bool

-- `TemplateDefinition.is_sendable`
unfoldable pub is_sendable : TemplateDefinition → Bool
is_sendable t = t.status == TemplateStatus.approved
