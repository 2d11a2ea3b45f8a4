-- ===== src/Services/Conversation/Inbound.antt =====
-- `handle_inbound` of app/services/conversation_service.py: one inbound customer message. A method
-- that sets attributes of the contact or the conversation returns them.
use whatsapp_bot.Prelude.{
  ℕ, ◌++◌, String, Bool, true, false, Option, none, some, List, [], ◌∷◌, not, ◌&&◌, ◌||◌, clip,
  or_text, usable, is_blank, lstrip_plus, ◌==◌, nat_eq, string_eq, if◌then◌else◌,
}
use whatsapp_bot.Domain.Enums.{
  Intent, Direction, MessageType, DeliveryStatus, EscalationReason, intent_eq, direction_eq,
  message_type_eq, conversation_state_eq,
}
use whatsapp_bot.Domain.Config.{BusinessConfig, BotConfig}
use whatsapp_bot.Domain.Models.{Contact, Conversation, Message}
use whatsapp_bot.Domain.Phone.{NormalisedPhone}
use whatsapp_bot.Domain.Schemas.{IntentResult, RetrievalResult, BotReply}
use whatsapp_bot.Domain.Rules.Keywords.{Unicode}
use whatsapp_bot.Domain.Rules.Schedule.{service_window_open}
use whatsapp_bot.Store.Session.{M, Error, Result, Outgoing, pure, raise, gets, utcnow, ◌>>=◌, ◌>>◌}
use whatsapp_bot.Repositories.Contacts.{get_or_create_contact, save_contact, touch_outbound}
use whatsapp_bot.Repositories.Messages.{NewMessage, add_message, recent_history}
use whatsapp_bot.Services.Escalation.{EscalationHost}
use whatsapp_bot.Services.Response.Sanitise.{TextHost}

abbrev pub preview_chars : ℕ
preview_chars = 60

-- The parts of `InboundMessage` that the handler reads; the media reference is left out.
pub record InboundMessage : Type 0 where
  pub meta_message_id : String
  pub wa_id : String
  pub message_type : MessageType
  pub timestamp : ℕ
  pub text : Option String
  pub profile_name : Option String

-- What the service calls: the phone normaliser, the cipher, texts, the CRM, the knowledge search,
-- the screening of injections, the model, and the WhatsApp client, whose answer to a text depends
-- on the calls before it. The client's `mark_as_read` is
-- taken not to raise, as its comment says, and its answer is not read.
pub record InboundHost : Type 0 where
  pub normalise_phone : String → Option NormalisedPhone
  pub encrypt : String → String
  pub decrypt : String → Option String
  pub unicode : Unicode
  pub text : TextHost
  pub escalation : EscalationHost
  pub search : String → ℕ → Result RetrievalResult
  pub injection : String → Bool
  pub model : String → RetrievalResult → List (String × String) → String → Result IntentResult
  pub sent_id : List Outgoing → Outgoing → Result (Option String)

pub data Reason : Type 0 where
  opt_out bot_paused_global bot_paused_contact human_handling unsupported_type empty_message
        processed :
      Reason

-- `ProcessingOutcome`; `handled` is always true.
pub record ProcessingOutcome : Type 0 where
  pub reason : Reason
  pub intent : Option Intent
  pub replied : Bool
  pub escalated : Bool
  pub reply_text : Option String

abbrev pub silent : Reason → ProcessingOutcome
silent reason = record {
  reason = reason;
  intent = none;
  replied = false;
  escalated = false;
  reply_text = none;
}

-- A call whose answer is known, or its exception.
abbrev pub lift : {A : Type 0} → Result A → M A
lift answered w = (answered, w)

-- `except (LLMError, TimeoutError)`
abbrev pub is_model_error : Error → Bool
is_model_error Error.llm = true
is_model_error Error.timeout = true
is_model_error Error.validation = false
is_model_error Error.configuration = false
is_model_error Error.circuit_open = false
is_model_error Error.integrity = false
is_model_error Error.pending_rollback = false
is_model_error Error.multiple_results = false
is_model_error (Error.whatsapp_api _ _) = false
is_model_error (Error.other _) = false

-- `except (WhatsAppAPIError, CircuitOpenError)`
abbrev pub is_send_error : Error → Bool
is_send_error Error.circuit_open = true
is_send_error (Error.whatsapp_api _ _) = true
is_send_error Error.llm = false
is_send_error Error.timeout = false
is_send_error Error.validation = false
is_send_error Error.configuration = false
is_send_error Error.integrity = false
is_send_error Error.pending_rollback = false
is_send_error Error.multiple_results = false
is_send_error (Error.other _) = false

-- What the handler uses where the model failed.
abbrev pub no_analysis : IntentResult
no_analysis = record {
  intent = Intent.unknown;
  confidence = 0;
  missing_information = [];
  proposed_response = "";
  requires_human = false;
  safety_flags = [];
  sources = [];
}

abbrev pub role_of : Message → String
role_of m = if m.direction == Direction.inbound then "Customer" else "Assistant"

-- The entry of one message, where its text is not empty.
abbrev pub with_turn : String → String → List (String × String) → List (String × String)
with_turn role text rest = if is_blank text then rest else (role, text) ∷ rest

abbrev pub or_reason : Option EscalationReason → EscalationReason
or_reason none = EscalationReason.low_confidence
or_reason (some r) = r

module _ (business : BusinessConfig) (bot : BotConfig) (host : InboundHost) where
  -- The ciphertext and the preview.
  unfoldable pub store_content : String → Option String × Option String
  store_content text =
      if is_blank text
      then (none, none)
      else if not bot.features.store_message_content
      then (none, some (clip preview_chars text))
      else (some (host.encrypt text), some (clip preview_chars text))

  abbrev pub with_profile_name : InboundMessage → Contact × Bool → M Contact
  with_profile_name event (c, created) =
      if not created
        && not (is_blank (or_text event.profile_name ""))
        && is_blank (or_text c.first_name "")
      then save_contact (record c { first_name = event.profile_name })
      else pure c

  abbrev pub contact_for : InboundMessage → Option NormalisedPhone → M Contact
  contact_for event none = raise Error.validation
  contact_for event (some phone) =
      get_or_create_contact business.business_id phone.hash (host.encrypt phone.e164) phone.masked
        event.profile_name business.default_language
      >>= with_profile_name event

  unfoldable pub resolve_contact : InboundMessage → M Contact
  resolve_contact event = contact_for event (host.normalise_phone event.wa_id)

  abbrev pub decrypted : Option String → String
  decrypted none = ""
  decrypted (some ciphertext) =
      if is_blank ciphertext then "" else or_text (host.decrypt ciphertext) ""

  abbrev pub turn_text : Message → String
  turn_text m =
      if is_blank (decrypted m.content_encrypted)
      then or_text m.content_preview ""
      else decrypted m.content_encrypted

  abbrev pub turns : List Message → List (String × String)
  turns [] = []
  turns (m ∷ rows) = with_turn (role_of m) (turn_text m) (turns rows)

  unfoldable pub history : Conversation → M (List (String × String))
  history conversation =
      if bot.history_limit == 0
      then pure []
      else recent_history conversation.id bot.history_limit >>= λ rows. pure (turns rows)

  -- A call of the client: made, whatever the answer.
  unfoldable pub send_text : Outgoing → M (Option String)
  send_text call w = (host.sent_id w.outbox call, record w { outbox = w.outbox ++ call ∷ [] })

  abbrev pub reply_message :
      Contact → Conversation → BotReply → Option String → Option String → NewMessage
  reply_message contact conversation reply meta_id correlation = record {
    business_id = business.business_id;
    conversation_id = conversation.id;
    contact_id = contact.id;
    direction = Direction.outbound;
    message_type = MessageType.text;
    meta_message_id = meta_id;
    content_encrypted = (store_content reply.text).0;
    content_preview = (store_content reply.text).1;
    intent = some reply.intent;
    confidence = some reply.confidence;
    delivery_status = some DeliveryStatus.sent;
    template_name = none;
    template_language = none;
    campaign_id = none;
    correlation_id = correlation;
  }

  unfoldable pub store_reply : Contact → Conversation → BotReply → Option String → M (Option String)
  store_reply contact conversation reply meta_id = do
    correlation ← gets (λ w. w.correlation_id)
    add_message (reply_message contact conversation reply meta_id correlation)
    touch_outbound contact
    pure meta_id

  -- The call, and what is stored after it.
  unfoldable pub deliver : Contact → Conversation → BotReply → String → M (Option String)
  unfolding send_text store_reply
  deliver contact conversation reply phone =
      send_text (Outgoing.send_text (lstrip_plus phone) reply.text)
      >>= store_reply contact conversation reply

  abbrev pub deliver_to : Contact → Conversation → BotReply → Option String → M (Option String)
  deliver_to contact conversation reply none = pure none
  deliver_to contact conversation reply (some phone) = deliver contact conversation reply phone

  -- Free text is sent in the 24 hours after the contact's last message only.
  unfoldable pub send_reply : Contact → Conversation → BotReply → M (Option String)
  send_reply contact conversation reply =
      if reply.suppress_send || is_blank reply.text then pure none else do
        now ← utcnow
        if not (service_window_open contact.last_inbound_at now)
            then pure none
            else deliver_to contact conversation reply
                (usable (host.decrypt contact.phone_encrypted))
