-- ===== src/Services/Response/Compose.antt =====
-- `compose` of app/services/response_service.py: the reply to one analysed message.
use whatsapp_bot.Prelude.{
  is_blank, ℕ, ◌+◌, String, Bool, true, false, none, some, List, [], ◌∷◌, max, not, ◌&&◌, ◌||◌, ltb,
  leb, ◌==◌, nat_eq, joined, or_text, text_length, if◌then◌else◌,
}
use whatsapp_bot.Domain.Enums.{Intent, SafetyFlag, EscalationReason, intent_eq, safety_flag_eq}
use whatsapp_bot.Domain.Config.{BusinessConfig, BotConfig}
use whatsapp_bot.Domain.Schemas.{
  IntentResult, RetrievalResult, BotReply, has_context, is_empty_list,
}
use whatsapp_bot.Services.Response.Sanitise.{TextHost, strip, sanitise_reply}
use whatsapp_bot.Services.Response.Fragments.{
  human_handoff_sentence, optout_confirmation, optin_confirmation, unavailable_text, emergency_text,
  clarification_text, no_knowledge_text, outside_hours_suffix,
}

-- A reply of fixed text that does not hand over.
abbrev pub answer : String → Intent → ℕ → BotReply
answer text intent confidence = record {
  text = text;
  intent = intent;
  confidence = confidence;
  escalate = false;
  escalation_reason = none;
  pause_bot = false;
  sources = [];
  deterministic = true;
  suppress_send = false;
}

-- A reply of fixed text that hands over to a human.
abbrev pub handover : String → Intent → ℕ → EscalationReason → Bool → BotReply
handover text intent confidence reason pause_bot = record (answer text intent confidence) {
  escalate = true;
  escalation_reason = some reason;
  pause_bot = pause_bot;
}

-- `result.intent in _GROUNDING_REQUIRED`
abbrev pub grounding_required : Intent → Bool
grounding_required i =
    i == Intent.product_inquiry
    || i == Intent.pricing_inquiry
    || i == Intent.availability
    || i == Intent.order_status
    || i == Intent.location_hours

abbrev pub is_consequential : Intent → Bool
is_consequential i = i == Intent.complaint || i == Intent.refund_request || i == Intent.cancellation

abbrev pub first_flag : List SafetyFlag → SafetyFlag
first_flag [] = SafetyFlag.none
first_flag (flag ∷ _) = flag

abbrev pub flag_reason : SafetyFlag → Intent → EscalationReason
flag_reason flag intent =
    if flag == SafetyFlag.self_harm
    then EscalationReason.safety_concern
    else if flag == SafetyFlag.prompt_injection
    then EscalationReason.restricted_topic
    else if flag == SafetyFlag.legal_advice
    then EscalationReason.legal_threat
    else if intent == Intent.complaint || flag == SafetyFlag.abuse
    then EscalationReason.complaint
    else EscalationReason.restricted_topic

module _ (host : TextHost) (business : BusinessConfig) (bot : BotConfig) where
  abbrev pub tidy : String → String
  tidy text = sanitise_reply host bot.max_response_chars text

  abbrev pub then_handoff : String → String
  then_handoff sentence = joined (sentence ∷ " " ∷ human_handoff_sentence host business bot ∷ [])

  abbrev pub sorry : String
  sorry = "I'm sorry to hear that, and I want to get it sorted properly."

  abbrev pub flag_text : SafetyFlag → Intent → String
  flag_text flag intent =
      if flag == SafetyFlag.self_harm
      then or_text (emergency_text host business bot) (no_knowledge_text host business bot)
      else if flag == SafetyFlag.prompt_injection
      then no_knowledge_text host business bot
      else if intent == Intent.complaint
          || flag == SafetyFlag.legal_advice
          || flag == SafetyFlag.abuse
      then then_handoff sorry
      else no_knowledge_text host business bot

  abbrev pub acknowledgement : Intent → String
  acknowledgement i =
      if i == Intent.complaint
      then sorry
      else if i == Intent.refund_request
      then "I can't approve refunds myself, but I can get this looked at."
      else "I can't change bookings myself, but I can pass this on."

  abbrev pub consequential_reply : IntentResult → BotReply
  consequential_reply r =
      handover (tidy (then_handoff (acknowledgement r.intent))) r.intent (max r.confidence 900_000)
        (if r.intent == Intent.complaint
          then EscalationReason.complaint
          else EscalationReason.sensitive_action)
        (r.intent == Intent.complaint)

  abbrev pub greeting_reply : IntentResult → ℕ → BotReply
  greeting_reply r now =
      answer (tidy (joined (business.greeting ∷ outside_hours_suffix host business bot now ∷ [])))
        Intent.greeting (max r.confidence 900_000)

  abbrev pub unanswered : IntentResult → EscalationReason → BotReply
  unanswered r reason =
      handover (tidy (no_knowledge_text host business bot)) r.intent r.confidence reason false

  -- The suffix goes on where it leaves the text within the limit.
  abbrev pub with_suffix : String → String → String
  with_suffix suffix text =
      if not (is_blank suffix) && leb (text_length text + text_length suffix) bot.max_response_chars
      then joined (text ∷ suffix ∷ [])
      else text

  abbrev pub model_answer : IntentResult → ℕ → BotReply
  model_answer r now =
      record (answer
        (with_suffix (outside_hours_suffix host business bot now) (tidy r.proposed_response))
        r.intent r.confidence) { sources = r.sources; deterministic = false }

  -- From the thresholds on.
  unfoldable pub compose_open : IntentResult → RetrievalResult → ℕ → BotReply
  compose_open r retrieval now =
      if ltb r.confidence bot.thresholds.escalate || r.requires_human
      then unanswered r EscalationReason.low_confidence
      else if ltb r.confidence bot.thresholds.reply
      then answer (tidy (clarification_text host business bot r.missing_information)) r.intent
          r.confidence
      else if grounding_required r.intent
          && not (has_context retrieval && not (is_empty_list r.sources))
      then unanswered r EscalationReason.no_knowledge
      else if is_blank (tidy r.proposed_response)
      then unanswered r EscalationReason.no_knowledge
      else model_answer r now

  unfoldable pub compose : IntentResult → RetrievalResult → ℕ → Bool → BotReply
  unfolding compose_open
  compose r retrieval now llm_failed =
      if llm_failed
      then handover (tidy (unavailable_text host business bot)) r.intent 0
          EscalationReason.llm_unavailable false
      else if not (is_empty_list r.safety_flags)
      then handover (tidy (flag_text (first_flag r.safety_flags) r.intent)) r.intent r.confidence
          (flag_reason (first_flag r.safety_flags) r.intent) false
      else if r.intent == Intent.opt_out
      then answer (tidy (optout_confirmation host business bot)) Intent.opt_out 1_000_000
      else if r.intent == Intent.opt_in
      then answer (tidy (optin_confirmation host business bot)) Intent.opt_in 1_000_000
      else if r.intent == Intent.human_agent_request
      then handover (tidy (joined ("Of course. " ∷ human_handoff_sentence host business bot ∷ [])))
          Intent.human_agent_request 1_000_000 EscalationReason.customer_request true
      else if is_consequential r.intent
      then consequential_reply r
      else if r.intent == Intent.greeting && is_blank (strip host r.proposed_response)
      then greeting_reply r now
      else compose_open r retrieval now
