-- ===== src/Services/Conversation/Handle.antt =====
-- The steps of `handle_inbound` of app/services/conversation_service.py, in their order.
use whatsapp_bot.Prelude.{
  ◌++◌, String, Bool, true, false, Option, none, some, [], ◌∷◌, not, ◌&&◌, ◌||◌, any, or_none,
  or_text, is_blank, is_some, joined, ◌==◌, string_eq, if◌then◌else◌,
}
use whatsapp_bot.Domain.Enums.{
  Intent, Direction, MessageType, ConversationState, ConsentPurpose, intent_eq, message_type_eq,
  message_type_value, conversation_state_eq,
}
use whatsapp_bot.Domain.Config.{BusinessConfig, BotConfig}
use whatsapp_bot.Domain.Models.{Contact, Conversation}
use whatsapp_bot.Domain.Schemas.{IntentResult, RetrievalResult, BotReply}
use whatsapp_bot.Domain.Rules.Keywords.{detect_opt_out}
use whatsapp_bot.Store.Session.{
  M, Error, Outgoing, ok, pure, raise, gets, utcnow, attempt, ◌>>=◌, ◌>>◌,
}
use whatsapp_bot.Repositories.Contacts.{touch_inbound}
use whatsapp_bot.Repositories.Conversations.{
  get_or_create_conversation, touch_conversation, record_analysis,
}
use whatsapp_bot.Repositories.Consents.{is_paused}
use whatsapp_bot.Repositories.Messages.{NewMessage, add_message}
use whatsapp_bot.Services.Consent.{opt_out, opt_in}
use whatsapp_bot.Services.Escalation.{escalate}
use whatsapp_bot.Services.Intent.{analyse}
use whatsapp_bot.Services.Response.Sanitise.{strip}
use whatsapp_bot.Services.Response.Fragments.{optout_confirmation, unsupported_message_text}
use whatsapp_bot.Services.Response.Compose.{answer, compose}
use whatsapp_bot.Services.Conversation.Inbound.{
  InboundMessage, InboundHost, Reason, ProcessingOutcome, silent, lift, is_model_error,
  is_send_error, no_analysis, or_reason, store_content, resolve_contact, history, send_reply,
}

-- `event.text or ""`
abbrev pub text_of : InboundMessage → String
text_of event = or_text event.text ""

-- The answer of the model or, where it failed, the substitute; the flag says which.
abbrev pub or_failed : Error → M (IntentResult × Bool)
or_failed e = if is_model_error e then pure (no_analysis, true) else raise e

module _ (business : BusinessConfig) (bot : BotConfig) (host : InboundHost) where
  abbrev pub inbound_message : InboundMessage → Contact → Conversation → Option String → NewMessage
  inbound_message event contact conversation correlation = record {
    business_id = business.business_id;
    conversation_id = conversation.id;
    contact_id = contact.id;
    direction = Direction.inbound;
    message_type = event.message_type;
    meta_message_id = or_none event.meta_message_id;
    content_encrypted = (store_content business bot host (text_of event)).0;
    content_preview = (store_content business bot host (text_of event)).1;
    intent = none;
    confidence = none;
    delivery_status = none;
    template_name = none;
    template_language = none;
    campaign_id = none;
    correlation_id = correlation;
  }

  -- The client's call never raises.
  unfoldable pub mark_read : InboundMessage → M (Unit {0})
  mark_read event w =
      if bot.features.auto_mark_read && not (is_blank event.meta_message_id)
      then (
        ok tt,
        record w { outbox = w.outbox ++ Outgoing.mark_as_read event.meta_message_id ∷ [] },
      )
      else (ok tt, w)

  -- The message is stored before anything is decided.
  unfoldable pub file_message : InboundMessage → Contact → Conversation → M (Contact × Conversation)
  file_message event contact conversation = do
    correlation ← gets (λ w. w.correlation_id)
    add_message (inbound_message event contact conversation correlation)
    mark_read event
    pure (contact, conversation)

  unfoldable pub open_for : InboundMessage → Contact → M (Contact × Conversation)
  unfolding file_message
  open_for event contact = do
    conversation ←
        get_or_create_conversation business.business_id contact.id bot.conversation_expiry_hours
    conversation' ← touch_conversation conversation bot.conversation_expiry_hours
    contact' ← touch_inbound contact event.timestamp
    file_message event contact' conversation'

  unfoldable pub receive : InboundMessage → M (Contact × Conversation)
  unfolding open_for
  receive event = resolve_contact business bot host event >>= open_for event

  abbrev pub optout_reply : BotReply
  optout_reply = answer (optout_confirmation host.text business bot) Intent.opt_out 1_000_000

  abbrev pub opted_out_outcome : ProcessingOutcome
  opted_out_outcome = record {
    reason = Reason.opt_out;
    intent = some Intent.opt_out;
    replied = true;
    escalated = false;
    reply_text = some optout_reply.text;
  }

  unfoldable pub unsubscribe :
      InboundMessage → Contact → Conversation → String → M ProcessingOutcome
  unsubscribe event contact conversation stop_word = do
    contact' ←
        opt_out contact "whatsapp_message"
          (some (joined ("Customer sent stop word: " ∷ stop_word ∷ []))) "customer_opt_out"
          (some event.timestamp)
    send_reply business bot host contact' conversation optout_reply
    pure opted_out_outcome

  abbrev pub unsupported_reply : BotReply
  unsupported_reply = answer (unsupported_message_text host.text business bot) Intent.unknown 0

  abbrev pub is_unsupported : InboundMessage → Bool
  is_unsupported event =
      event.message_type == MessageType.unsupported
      || not (any (λ t. t == message_type_value event.message_type) bot.supported_message_types)
        && is_blank (text_of event)

  unfoldable pub retrieve : String → M RetrievalResult
  retrieve text =
      if bot.features.knowledge_retrieval
      then lift (host.search text 4)
      else pure (record { query = text; hits = [] })

  unfoldable pub ask_model :
      InboundMessage → Contact → Conversation → RetrievalResult → M (IntentResult × Bool)
  ask_model event contact conversation retrieval = do
    turns ← history business bot host conversation
    result ←
        analyse host.unicode bot (host.injection (text_of event))
          (lift (host.model (text_of event) retrieval turns contact.locale)) retrieval
          (text_of event)
    pure (result, false)

  -- The `try` block of the analysis, with its handler.
  unfoldable pub analyse_inbound :
      InboundMessage → Contact → Conversation → RetrievalResult → M (IntentResult × Bool)
  unfolding ask_model
  analyse_inbound event contact conversation retrieval =
      attempt (ask_model event contact conversation retrieval) or_failed

  unfoldable pub subscribe : InboundMessage → Contact → IntentResult → M Contact
  subscribe event contact analysis =
      if analysis.intent == Intent.opt_in
      then opt_in contact "whatsapp_message" ConsentPurpose.marketing
          (some "Customer sent an explicit opt-in keyword.") (some event.timestamp)
      else pure contact

  unfoldable pub escalate_if : BotReply → Contact → Conversation → M (Contact × Conversation)
  escalate_if reply contact conversation =
      if reply.escalate
      then (escalate business host.escalation conversation contact
            (or_reason reply.escalation_reason) (some reply.confidence) reply.pause_bot
          >>= λ e. pure (e.contact, e.conversation))
      else pure (contact, conversation)

  -- The `try` block of the send: was there a message id?
  unfoldable pub try_send : BotReply → Contact × Conversation → M Bool
  try_send reply (contact, conversation) =
      attempt (send_reply business bot host contact conversation reply >>= λ id. pure (is_some id))
        (λ e. if is_send_error e then pure false else raise e)

  -- From the reply on.
  unfoldable pub respond : BotReply → Contact → Conversation → M ProcessingOutcome
  respond reply contact conversation = do
    parties ← escalate_if reply contact conversation
    replied ← try_send reply parties
    pure (record {
      reason = Reason.processed;
      intent = some reply.intent;
      replied = replied;
      escalated = reply.escalate;
      reply_text = some reply.text;
    })

  abbrev pub respond_to :
      InboundMessage
      → Contact
      → Conversation
      → RetrievalResult
      → IntentResult × Bool
      → M ProcessingOutcome
  respond_to event contact conversation retrieval (analysis, llm_failed) = do
    conversation' ← record_analysis conversation analysis.intent analysis.confidence
    contact' ← subscribe event contact analysis
    now ← utcnow
    respond (compose host.text business bot analysis retrieval now llm_failed) contact'
        conversation'

  -- Retrieval, analysis and the reply.
  unfoldable pub converse : InboundMessage → Contact → Conversation → M ProcessingOutcome
  converse event contact conversation = do
    retrieval ← retrieve (text_of event)
    analysed ← analyse_inbound event contact conversation retrieval
    respond_to event contact conversation retrieval analysed

  unfoldable pub converse_if : InboundMessage → Contact → Conversation → M ProcessingOutcome
  converse_if event contact conversation =
      if is_unsupported event
      then (send_reply business bot host contact conversation unsupported_reply
          >> pure (record (silent Reason.unsupported_type) {
            replied = true;
            reply_text = some unsupported_reply.text;
          }))
      else if is_blank (strip host.text (text_of event))
      then pure (silent Reason.empty_message)
      else converse event contact conversation

  -- The pause switches.
  abbrev pub unless_paused : InboundMessage → Contact → Conversation → Bool → M ProcessingOutcome
  unless_paused event contact conversation paused =
      if paused
      then pure (silent Reason.bot_paused_global)
      else if contact.bot_paused
      then pure (silent Reason.bot_paused_contact)
      else if conversation.state == ConversationState.human_handling
      then pure (silent Reason.human_handling)
      else converse_if event contact conversation

  abbrev pub decide : InboundMessage → Contact × Conversation → Option String → M ProcessingOutcome
  decide event (contact, conversation) (some String.[]) =
      is_paused business.business_id >>= unless_paused event contact conversation
  decide event (contact, conversation) (some (String.◌∷◌ c s)) =
      unsubscribe event contact conversation (String.◌∷◌ c s)
  decide event (contact, conversation) none =
      is_paused business.business_id >>= unless_paused event contact conversation

  -- The opt-out is looked for before anything else.
  unfoldable pub handle_inbound : InboundMessage → M ProcessingOutcome
  handle_inbound event = do
    parties ← receive event
    decide event parties (detect_opt_out host.unicode (text_of event) bot)
