-- ===== src/Domain/Rules/Handover.antt =====
-- `should_escalate` of app/domain/rules.py, and the intents that always go to a human.
use whatsapp_bot.Prelude.{ℕ, Bool, true, ◌||◌, ltb, leb, ◌==◌, if◌then◌else◌}
use whatsapp_bot.Domain.Enums.{Intent, intent_eq}
use whatsapp_bot.Domain.Config.{BotConfig}

-- `intent in ALWAYS_ESCALATE_INTENTS`
abbrev pub always_escalates : Intent → Bool
always_escalates i =
    i == Intent.complaint || i == Intent.human_agent_request || i == Intent.refund_request

unfoldable pub should_escalate : Intent → ℕ → BotConfig → ℕ → Bool → Bool
should_escalate intent confidence bot consecutive_failures safety_flagged =
    if safety_flagged
    then true
    else if always_escalates intent
    then true
    else if leb 3 consecutive_failures
    then true
    else ltb confidence bot.thresholds.escalate
