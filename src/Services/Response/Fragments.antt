-- ===== src/Services/Response/Fragments.antt =====
-- The sentences of `ResponseService` of app/services/response_service.py.
use whatsapp_bot.Prelude.{
  rstrip_of, ℕ, String, Option, none, List, [], ◌∷◌, not, ◌||◌, ◌==◌, nat_eq, joined, if◌then◌else◌,
}
use whatsapp_bot.Domain.Config.{BusinessConfig, BotConfig}
use whatsapp_bot.Domain.Rules.Schedule.{is_within_business_hours}
use whatsapp_bot.Services.Response.Sanitise.{TextHost}

module _ (host : TextHost) (business : BusinessConfig) (bot : BotConfig) where
  abbrev pub human_handoff_sentence : String
  human_handoff_sentence =
      joined
        ("I'm passing this to our " ∷ business.human_agent_name ∷ " who will get back to you." ∷ [])

  abbrev pub optout_confirmation : String
  optout_confirmation = joined (
      "You've been unsubscribed and won't receive further promotional messages from "
      ∷ business.name ∷ ". You can still message us any time if you need help." ∷ [])

  abbrev pub optin_confirmation : String
  optin_confirmation = joined (
      "Thanks - you're subscribed to updates from " ∷ business.name
      ∷ ". Reply STOP at any time to unsubscribe." ∷ [])

  abbrev pub unavailable_text : String
  unavailable_text = joined (
      "Thanks for your message. I can't answer that automatically right now, so "
      ∷ host.lower human_handoff_sentence
      ∷ [])

  abbrev pub unsupported_message_text : String
  unsupported_message_text =
      "Sorry, I can't open that type of message. Could you send your question as text instead?"

  abbrev pub emergency_text : Option String
  emergency_text = if business.emergency.enabled then business.emergency.message else none

  abbrev pub clarification_text : List String → String
  clarification_text [] =
      "I want to make sure I get this right - could you tell me a little more about what you need?"
  clarification_text (first ∷ rest) = joined (
      "Happy to help. Could you tell me "
      ∷ host.lower (rstrip_of (λ c. c == b'.' || c == b'?') first)
      ∷ "?"
      ∷ [])

  abbrev pub no_knowledge_text : String
  no_knowledge_text = joined (
      "I don't have that information to hand, so I don't want to guess. " ∷ human_handoff_sentence
      ∷ [])

  unfoldable pub outside_hours_suffix : ℕ → String
  outside_hours_suffix now =
      if is_within_business_hours now business
      then ""
      else if not bot.business_hours_behaviour.reply_outside_hours
      then ""
      else joined ("\n\n" ∷ bot.business_hours_behaviour.outside_hours_message ∷ [])
