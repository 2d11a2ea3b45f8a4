-- ===== src/Services/Escalation.antt =====
-- app/services/escalation_service.py: human escalation. A method that sets attributes of the
-- contact or the conversation returns them with it.
pub mod Rows
pub mod Pushed
pub mod Once
use Prim.Native.Char.{code}
use whatsapp_bot.Prelude.{
  is_blank, ℕ, String, Bool, true, false, Option, none, some, List, [], ◌∷◌, ◌++◌, map, not, ◌&&◌,
  clip, or_text, joined, ◌==◌, nat_eq, if◌then◌else◌,
}
use whatsapp_bot.Domain.Enums.{
  ConversationState, Direction, EscalationReason, Intent, direction_eq, intent_value,
  escalation_reason_value, consent_status_value,
}
use whatsapp_bot.Domain.Config.{BusinessConfig}
use whatsapp_bot.Domain.Models.{Contact, Conversation, Escalation, Message}
use whatsapp_bot.Store.Session.{World, M, pure, gets, ◌>>=◌, ◌>>◌}
use whatsapp_bot.Repositories.Contacts.{set_bot_paused, get_contact_by_id}
use whatsapp_bot.Repositories.Conversations.{mark_escalated, set_state, get_conversation_by_id}
use whatsapp_bot.Repositories.Messages.{recent_history}
use whatsapp_bot.Repositories.Escalations.{
  NewEscalation, create_escalation, save_escalation, get_open_for_conversation,
  get_escalation_by_id, resolve_escalation, acknowledge_escalation,
}

abbrev pub max_summary_chars : ℕ
max_summary_chars = 2000

-- What is sent to the CRM.
pub record EscalationPayload : Type 0 where
  pub business_id : String
  pub contact_name : String
  pub contact_masked : String
  pub reason : EscalationReason
  pub detected_intent : Option Intent
  pub confidence : Option ℕ
  pub summary : String
  pub correlation_id : Option String

-- What the service calls: the cipher, the mask of a phone, the texts of a confidence and of an id,
-- `str.strip`, and the CRM, which answers with a reference, with none, or raises.
pub record EscalationHost : Type 0 where
  pub decrypt : String → Option String
  pub mask_phone : String → String
  pub confidence_text : ℕ → String
  pub id_text : ℕ → String
  pub strip : String → String
  pub create_ticket : EscalationPayload → Option (Option String)

-- `value.replace("_", " ")`
abbrev pub spaced : String → String
spaced String.[] = String.[]
spaced (String.◌∷◌ c s) =
    let rest = spaced s in if code c == b'_' then String.◌∷◌ " " rest else String.◌∷◌ c rest

abbrev pub lines : List String → String
lines [] = ""
lines (s ∷ []) = s
lines (s ∷ t ∷ rest) = joined (s ∷ "\n" ∷ lines (t ∷ rest) ∷ [])

abbrev pub decrypted_or : String → Option String → String
decrypted_or preview none = preview
decrypted_or preview (some text) = if is_blank text then preview else text

-- What the conversation and the contact are after an escalation.
pub record Escalated : Type 0 where
  pub escalation : Escalation
  pub conversation : Conversation
  pub contact : Contact

abbrev pub intent_text : Option Intent → String
intent_text none = "unknown"
intent_text (some i) = intent_value i

abbrev pub or_confidence : Option ℕ → Option ℕ → Option ℕ
or_confidence none last = last
or_confidence (some c) last = some c

module _ (business : BusinessConfig) (host : EscalationHost) where
  abbrev pub content_of : Message → String
  content_of m = elim m.content_encrypted [
    | none ↦ or_text m.content_preview ""
    | some ciphertext ↦
        if is_blank ciphertext
        then or_text m.content_preview ""
        else decrypted_or (or_text m.content_preview "") (host.decrypt ciphertext)
  ]

  abbrev pub render_message : Message → String
  render_message m = host.strip (
      joined (
        (if m.direction == Direction.inbound then "Customer" else "Bot")
        ∷ ": "
        ∷ content_of m
        ∷ []))

  abbrev pub confidence_part : Option ℕ → String
  confidence_part none = ""
  confidence_part (some c) = joined (" (confidence " ∷ host.confidence_text c ∷ ")" ∷ [])

  unfoldable pub summary_text : Conversation → Contact → EscalationReason → List Message → String
  summary_text conversation contact reason history = clip max_summary_chars (
      lines (
        joined ("Escalation reason: " ∷ spaced (escalation_reason_value reason) ∷ [])
        ∷ joined (
            "Customer: "
            ∷ or_text contact.first_name "Unknown"
            ∷ " ("
            ∷ contact.phone_masked
            ∷ ")"
            ∷ [])
        ∷ joined (
            "Detected intent: "
            ∷ intent_text conversation.last_intent
            ∷ confidence_part conversation.last_confidence
            ∷ [])
        ∷ joined ("Consent status: " ∷ consent_status_value contact.consent_status ∷ [])
        ∷ ""
        ∷ "Conversation:"
        ∷ map (λ m. joined ("  " ∷ render_message m ∷ [])) history))

  unfoldable pub build_summary : Conversation → Contact → EscalationReason → M String
  build_summary conversation contact reason = do
    history ← recent_history conversation.id 10
    pure (summary_text conversation contact reason history)

  abbrev pub draft :
      Conversation → Contact → EscalationReason → Option ℕ → String → Option String → NewEscalation
  draft conversation contact reason confidence summary correlation = record {
    business_id = conversation.business_id;
    conversation_id = conversation.id;
    contact_id = contact.id;
    reason = reason;
    summary = summary;
    detected_intent = conversation.last_intent;
    confidence = or_confidence confidence conversation.last_confidence;
    correlation_id = correlation;
  }

  abbrev pub pause_reason : Escalation → Option String
  pause_reason e = some (joined ("escalation:" ∷ host.id_text e.id ∷ []))

  abbrev pub pause_if : Bool → Contact → Escalation → M Contact
  pause_if pause contact e =
      if pause then set_bot_paused contact true (pause_reason e) else pure contact

  -- The reference of the CRM, best effort.
  abbrev pub push_reference : Escalation → Option (Option String) → M Escalation
  push_reference e none = pure e
  push_reference e (some none) = pure e
  push_reference e (some (some String.[])) = pure e
  push_reference e (some (some (String.◌∷◌ c s))) =
      save_escalation (record e { crm_reference = some (String.◌∷◌ c s) })

  abbrev pub payload_of : Conversation → Contact → Escalation → EscalationPayload
  payload_of conversation contact e = record {
    business_id = conversation.business_id;
    contact_name = or_text contact.first_name "Unknown";
    contact_masked = host.mask_phone contact.phone_masked;
    reason = e.reason;
    detected_intent = conversation.last_intent;
    confidence = e.confidence;
    summary = e.summary;
    correlation_id = e.correlation_id;
  }

  -- A new escalation.
  unfoldable pub open_escalation :
      Conversation → Contact → EscalationReason → Option ℕ → Bool → M Escalated
  open_escalation conversation contact reason confidence pause_bot = do
    summary ← build_summary conversation contact reason
    correlation ← gets (λ w. w.correlation_id)
    created ← create_escalation (draft conversation contact reason confidence summary correlation)
    conversation' ← mark_escalated conversation (some business.human_agent_name)
    contact' ← pause_if pause_bot contact created
    pushed ← push_reference created (host.create_ticket (payload_of conversation' contact' created))
    pure (record { escalation = pushed; conversation = conversation'; contact = contact' })

  abbrev pub escalate_found :
      Conversation → Contact → EscalationReason → Option ℕ → Bool → Option Escalation → M Escalated
  escalate_found conversation contact reason confidence pause_bot none =
      open_escalation conversation contact reason confidence pause_bot
  escalate_found conversation contact reason confidence pause_bot (some existing) = do
    contact' ← pause_if (pause_bot && not contact.bot_paused) contact existing
    pure (record { escalation = existing; conversation = conversation; contact = contact' })

  -- Reuses an open escalation of the conversation.
  unfoldable pub escalate :
      Conversation → Contact → EscalationReason → Option ℕ → Bool → M Escalated
  escalate conversation contact reason confidence pause_bot = do
    existing ← get_open_for_conversation conversation.id
    escalate_found conversation contact reason confidence pause_bot existing

  abbrev pub resume_contact : Option Contact → M (Unit {0})
  resume_contact none = pure tt
  resume_contact (some c) = set_bot_paused c false none >> pure tt

  abbrev pub resume_conversation : Option Conversation → M (Unit {0})
  resume_conversation none = pure tt
  resume_conversation (some c) = set_state c ConversationState.active >> pure tt

  unfoldable pub resume : String → Escalation → M (Unit {0})
  resume business_id e = do
    conversation ← get_conversation_by_id business_id e.conversation_id
    contact ← get_contact_by_id business_id e.contact_id
    resume_contact contact
    resume_conversation conversation

  -- Both rows are loaded whether or not the bot resumes.
  unfoldable pub load_only : String → Escalation → M (Unit {0})
  load_only business_id e = do
    conversation ← get_conversation_by_id business_id e.conversation_id
    contact ← get_contact_by_id business_id e.contact_id
    pure tt

  abbrev pub resolve_found :
      String → Option String → String → Bool → Option Escalation → M (Option Escalation)
  resolve_found business_id resolution_note actor resume_bot none = pure none
  resolve_found business_id resolution_note actor resume_bot (some e) = do
    resolved ← resolve_escalation e resolution_note (some actor)
    if resume_bot then resume business_id resolved else load_only business_id resolved
    pure (some resolved)

  unfoldable pub resolve : String → ℕ → Option String → String → Bool → M (Option Escalation)
  resolve business_id escalation_id resolution_note actor resume_bot = do
    found ← get_escalation_by_id business_id escalation_id
    resolve_found business_id resolution_note actor resume_bot found

  abbrev pub acknowledge_found : String → Option Escalation → M (Option Escalation)
  acknowledge_found actor none = pure none
  acknowledge_found actor (some e) = acknowledge_escalation e actor >>= λ e'. pure (some e')

  unfoldable pub acknowledge : String → ℕ → String → M (Option Escalation)
  acknowledge business_id escalation_id actor = do
    found ← get_escalation_by_id business_id escalation_id
    acknowledge_found actor found
