-- ===== src/Tests/Replies.antt =====
-- Analysis and replies at concrete inputs.
use whatsapp_bot.Prelude.{
  [], ◌∷◌, arith, ◌≤◌, ◌≡◌, refl, ◌||◌, true, false, All, leb, text_length, some,
}
use whatsapp_bot.Domain.Enums.{Intent, EscalationReason}
use whatsapp_bot.Domain.Schemas.{IntentResult, has_context}
use whatsapp_bot.Domain.Rules.Handover.{should_escalate}
use whatsapp_bot.Services.Intent.{needs_no_context, post_validate}
use whatsapp_bot.Services.Intent.Validation.{IsAllowed, IsKnown, post_validate-IsAllowed}
use whatsapp_bot.Services.Response.Sanitise.{sanitise_reply}
use whatsapp_bot.Services.Response.Compose.{compose}
use whatsapp_bot.Services.Response.Stages.{IsTrusted, compose-IsTrusted, compose-should_escalate}
use whatsapp_bot.Services.Response.Limits.{text_length-compose}
use whatsapp_bot.Services.Escalation.{escalate}
use whatsapp_bot.Services.Escalation.Once.{IsEscalated, escalate-IsEscalated}
use whatsapp_bot.Samples.{shop, bot, noon, grace, start}
use whatsapp_bot.Samples.Messaging.{verbatim, crm, priced, found, chat}
use whatsapp_bot.Store.Session.{World}

post_validate-IsAllowed_example :
    ((post_validate bot found priced).confidence ≤ priced.confidence)
    × IsAllowed bot (post_validate bot found priced).intent
    × All (IsKnown found) (post_validate bot found priced).sources
    × ((has_context found
          || needs_no_context priced.intent
          || leb (post_validate bot found priced).confidence bot.thresholds.escalate)
        ≡ true)
post_validate-IsAllowed_example = post_validate-IsAllowed bot found priced

compose-IsTrusted_example :
    IsTrusted bot priced found false
    × ((compose verbatim shop bot priced found noon false).sources ≡ priced.sources)
    × ((compose verbatim shop bot priced found noon false).escalate ≡ false)
unfolding compose sanitise_reply
compose-IsTrusted_example = compose-IsTrusted verbatim shop bot priced found noon false refl

abbrev grievance : IntentResult
grievance = record priced { intent = Intent.complaint }

-- After a failure.
compose-should_escalate_example :
    (compose verbatim shop bot grievance found noon false).escalate ≡ true
unfolding should_escalate
compose-should_escalate_example =
    compose-should_escalate verbatim shop bot grievance found noon false 1 (omega arith) refl refl

text_length-compose_example :
    text_length (compose verbatim shop bot priced found noon false).text ≤ bot.max_response_chars
text_length-compose_example = text_length-compose verbatim shop bot priced found noon false

-- The conversation and the contact have their rows.
abbrev chatting : World
chatting = record start {
  db = record start.db { contacts = grace ∷ []; conversations = chat ∷ [] };
}

escalate-IsEscalated_example :
    IsEscalated chat grace true chatting
      (escalate shop crm chat grace EscalationReason.complaint (some 900_000) true chatting)
escalate-IsEscalated_example =
    escalate-IsEscalated shop crm chat grace EscalationReason.complaint (some 900_000) true chatting
      (record { below = tt; once = λ c. record { bound = omega arith } }) refl refl
