-- ===== src/Samples.antt =====
-- A small shop for the tests: its configuration, one contact, and tables with a row or two.
pub mod Messaging
pub mod Bodies
use whatsapp_bot.Prelude.{ℕ, String, true, false, none, some, [], ◌∷◌, nat_eq}
use whatsapp_bot.Domain.Enums.{
  Intent, ConsentStatus, TemplateCategory, TemplateStatus, CampaignStatus, CampaignRecipientStatus,
  Direction, MessageType, DeliveryStatus,
}
use whatsapp_bot.Domain.Config.{
  Zone, DayHours, BusinessConfig, QuietHours, BotConfig, TemplateDefinition, time,
}
use whatsapp_bot.Domain.Models.{
  Contact, Message, SuppressionEntry, Campaign, CampaignRecipient, WebhookEvent,
}
use whatsapp_bot.Store.Session.{Db, World, err, Error}
use whatsapp_bot.Services.Campaign.Data.{Host, RecipientRow}

abbrev pub utc : Zone
utc = record { to_local = λ t. t; from_local = λ t. t }

abbrev pub office_day : DayHours
office_day = record { closed = false; opens = time 9 0; closes = time 17 0 }

abbrev pub shop : BusinessConfig
shop = record {
  business_id = "shop";
  name = "Shop";
  timezone = "UTC";
  tzinfo = utc;
  supported_languages = "en" ∷ [];
  default_language = "en";
  greeting = "Hello";
  business_hours = record {
    monday = office_day;
    tuesday = office_day;
    wednesday = office_day;
    thursday = office_day;
    friday = office_day;
    saturday = office_day;
    sunday = office_day;
  };
  emergency = record { enabled = false; message = none };
  human_agent_name = "Ada";
}

abbrev pub night : QuietHours
night = record { enabled = true; start = time 21 0; finish = time 8 0 }

abbrev pub long_stop : String
long_stop = "stop all of these please"

abbrev pub bot : BotConfig
bot = record {
  enabled_intents = Intent.opt_out ∷ [];
  thresholds = record { reply = 700_000; escalate = 400_000 };
  max_response_chars = 900;
  history_limit = 10;
  conversation_expiry_hours = 24;
  business_hours_behaviour = record {
    reply_outside_hours = true;
    outside_hours_message = "Closed";
  };
  quiet_hours = night;
  campaign = record { batch_size = 2; max_failure_rate = 200_000; min_sample_before_pause = 20 };
  supported_message_types = "text" ∷ [];
  stop_words = "stop" ∷ long_stop ∷ [];
  handover_keywords = "agent" ∷ [];
  opt_in_keywords = "start" ∷ [];
  features = record {
    knowledge_retrieval = true;
    campaigns_enabled = true;
    auto_mark_read = true;
    store_message_content = true;
  };
}

abbrev pub offer : TemplateDefinition
offer = record {
  name = "offer";
  language = "en";
  category = TemplateCategory.marketing;
  status = TemplateStatus.approved;
  requires_opt_in = true;
}

abbrev pub noon : ℕ
noon = time 12 0

abbrev pub grace : Contact
grace = record {
  id = 1;
  business_id = "shop";
  phone_hash = "h1";
  phone_encrypted = "+441";
  phone_masked = "+***1";
  first_name = none;
  locale = "en";
  consent_status = ConsentStatus.opted_in;
  bot_paused = false;
  pause_reason = none;
  last_inbound_at = none;
  last_outbound_at = none;
}

abbrev pub listed : SuppressionEntry
listed = record {
  id = 2;
  business_id = "shop";
  phone_hash = "h1";
  phone_masked = "+***1";
  reason = "opt_out";
  detail = none;
  suppressed_at = 5;
}

abbrev pub update : WebhookEvent
update = record {
  id = 3;
  business_id = "shop";
  event_key = "wamid.1";
  event_type = "inbound_message";
  processed = false;
  attempts = 1;
  last_error = none;
  correlation_id = none;
  processed_at = none;
  created_at = 7;
}

abbrev pub sale : Campaign
sale = record {
  id = 4;
  business_id = "shop";
  name = "Sale";
  template_name = "offer";
  template_language = "en";
  status = CampaignStatus.completed;
  pause_reason = none;
  total = 0;
  eligible = 0;
  rejected = 0;
  sent = 0;
  delivered = 0;
  read = 0;
  failed = 0;
  started_at = none;
  completed_at = none;
  correlation_id = none;
}

abbrev pub recipient : ℕ → ℕ → CampaignRecipient
recipient id contact_id = record {
  id = id;
  campaign_id = 4;
  contact_id = contact_id;
  status = CampaignRecipientStatus.eligible;
  rejection_reason = none;
  template_variables = ("name", "Grace") ∷ [];
  meta_message_id = none;
  error_code = none;
  error_detail = none;
  sent_at = none;
}

abbrev pub sent_message : Message
sent_message = record {
  id = 6;
  business_id = "shop";
  conversation_id = 8;
  contact_id = 1;
  meta_message_id = some "m1";
  direction = Direction.outbound;
  message_type = MessageType.text;
  content_encrypted = none;
  content_preview = none;
  intent = none;
  confidence = none;
  delivery_status = some DeliveryStatus.sent;
  error_code = none;
  error_detail = none;
  template_name = none;
  template_language = none;
  campaign_id = none;
  correlation_id = none;
  sent_at = some 9;
  delivered_at = none;
  read_at = none;
  created_at = 9;
}

abbrev pub tables : Db
tables = record {
  contacts = grace ∷ [];
  conversations = [];
  messages = sent_message ∷ [];
  consents = [];
  suppressions = [];
  campaigns = sale ∷ [];
  recipients = recipient 10 1 ∷ [];
  escalations = [];
  webhook_events = [];
  dead_letters = [];
  bot_states = [];
  next_id = 20;
}

abbrev pub start : World
start = record { db = tables; now = noon; correlation_id = none; outbox = []; jobs = [] }

-- A host that accepts every number and whose API refuses every call.
abbrev pub refusing : Host
refusing = record {
  normalise_phone = λ text.
      some (record { e164 = text; hash = text; masked = "***"; country_code = 44; region = none });
  encrypt = λ text. text;
  decrypt = λ text. some text;
  json_loads = λ text. none;
  reason_text = λ code. "refused";
  pause_text = λ failed attempted. "too many failures";
  answer = λ calls call. err (Error.whatsapp_api (some 131_000) "refused");
}

abbrev pub import_row : String → RecipientRow
import_row phone = record {
  phone_e164 = some phone;
  phone = none;
  first_name = none;
  locale = none;
  template_variables = [];
  template_variables_json = none;
}
