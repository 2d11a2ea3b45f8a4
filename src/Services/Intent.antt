-- ===== src/Services/Intent.antt =====
-- app/services/intent_service.py: rules before the model, and the validation of what it says. The
-- prompts and the model are a parameter of the analysis.
pub mod Validation
use whatsapp_bot.Prelude.{
  ℕ, String, Bool, true, false, Option, none, some, List, [], ◌∷◌, not, any, where_, length, min,
  ◌==◌, nat_eq, string_eq, ◌&&◌, ◌||◌, if◌then◌else◌,
}
use whatsapp_bot.Domain.Enums.{Intent, SafetyFlag, intent_eq}
use whatsapp_bot.Domain.Config.{BotConfig}
use whatsapp_bot.Domain.Schemas.{
  IntentResult, RetrievalResult, has_context, source_ids, is_empty_list,
}
use whatsapp_bot.Domain.Rules.Keywords.{
  Unicode, detect_opt_out, detect_opt_in, detect_handover_request,
}
use whatsapp_bot.Store.Session.{M, pure, ◌>>=◌, ◌>>◌}

pub record DeterministicOutcome : Type 0 where
  pub intent : Intent
  pub matched_keyword : String

-- The first of the rules that matches; an empty text matches none.
abbrev pub first_match : Option String → Option String → Option String → Option DeterministicOutcome
first_match (some word) opt_in handover =
    some (record { intent = Intent.opt_out; matched_keyword = word })
first_match none (some word) handover =
    some (record { intent = Intent.opt_in; matched_keyword = word })
first_match none none (some word) =
    some (record { intent = Intent.human_agent_request; matched_keyword = word })
first_match none none none = none

-- `min(current, thresholds.escalate)`
abbrev pub lowered : BotConfig → ℕ → ℕ
lowered bot confidence = min confidence bot.thresholds.escalate

-- Intents that need no retrieved knowledge.
abbrev pub needs_no_context : Intent → Bool
needs_no_context i =
    i == Intent.greeting
    || i == Intent.opt_in
    || i == Intent.opt_out
    || i == Intent.human_agent_request

-- An intent that is not enabled becomes unknown.
unfoldable pub check_enabled : BotConfig → IntentResult → IntentResult
check_enabled bot r =
    if any (λ i. i == r.intent) bot.enabled_intents
    then r
    else record r { intent = Intent.unknown; confidence = lowered bot r.confidence }

-- An answer without retrieval is not trusted; `claimed` is the intent that the model named.
unfoldable pub check_support : BotConfig → RetrievalResult → Intent → IntentResult → IntentResult
check_support bot retrieval claimed r =
    if not (has_context retrieval) && not (needs_no_context claimed)
    then record r { confidence = lowered bot r.confidence; sources = [] }
    else r

abbrev pub known_sources : RetrievalResult → List String → List String
known_sources retrieval sources = where_ (λ s. any (λ i. i == s) (source_ids retrieval)) sources

-- Sources that were not retrieved are taken out; `claimed` is the list that the model gave.
unfoldable pub check_sources :
    BotConfig → RetrievalResult → List String → IntentResult → IntentResult
check_sources bot retrieval claimed r =
    let kept = known_sources retrieval claimed in
    if length kept == length claimed
    then r
    else if is_empty_list kept
    then record r { sources = []; confidence = lowered bot r.confidence }
    else record r { sources = kept }

unfoldable pub post_validate : BotConfig → RetrievalResult → IntentResult → IntentResult
unfolding check_enabled check_support check_sources
post_validate bot retrieval result =
    check_sources bot retrieval result.sources
      (check_support bot retrieval result.intent (check_enabled bot result))

module _ (u : Unicode) (bot : BotConfig) where
  unfoldable pub classify_deterministic : String → Option DeterministicOutcome
  classify_deterministic text =
      first_match (detect_opt_out u text bot) (detect_opt_in u text bot)
        (detect_handover_request u text bot)

  abbrev pub settled : DeterministicOutcome → IntentResult
  settled d = record {
    intent = d.intent;
    confidence = 1_000_000;
    missing_information = [];
    proposed_response = "";
    requires_human = d.intent == Intent.human_agent_request;
    safety_flags = [];
    sources = [];
  }

  abbrev pub injected : IntentResult
  injected = record {
    intent = Intent.unknown;
    confidence = 0;
    missing_information = [];
    proposed_response = "";
    requires_human = true;
    safety_flags = SafetyFlag.prompt_injection ∷ [];
    sources = [];
  }

  -- Without a rule that decides, the message is screened and then given to the model.
  abbrev pub analyse_open :
      Bool → M IntentResult → RetrievalResult → Option DeterministicOutcome → M IntentResult
  analyse_open injection model retrieval (some d) = pure (settled d)
  analyse_open injection model retrieval none =
      if injection
      then pure injected
      else model >>= λ result. pure (post_validate bot retrieval result)

  -- `injection` is `detect_prompt_injection` of the message, which the `re` module decides, and
  -- `model` the call of the model.
  unfoldable pub analyse : Bool → M IntentResult → RetrievalResult → String → M IntentResult
  unfolding classify_deterministic
  analyse injection model retrieval message =
      analyse_open injection model retrieval (classify_deterministic message)
