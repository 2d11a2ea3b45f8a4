-- ===== src/Domain/Rules/Eligibility.antt =====
-- The pre-send compliance gate of app/domain/rules.py. A decision's sentence for the operator is
-- fixed by its code and the context, and is left out.
pub mod Laws
use whatsapp_bot.Prelude.{
  ℕ, String, Bool, true, false, Option, none, some, List, ◌||◌, ◌&&◌, not, any, is_some, ◌==◌,
  string_eq, if◌then◌else◌, Eq, ◌≡◌, ◌↔◌, arith, nat_eq,
}
use whatsapp_bot.Domain.Enums.{
  ConsentStatus, ConsentPurpose, TemplateCategory, TemplateStatus, consent_status_eq,
  consent_purpose_eq, template_category_eq, template_status_eq,
}
use whatsapp_bot.Domain.Config.{BusinessConfig, BotConfig, TemplateDefinition}
use whatsapp_bot.Domain.Rules.Schedule.{is_within_quiet_hours}

-- `EligibilityDecision.code`
pub data Code : Type 0 where
  ok suppressed opted_out campaigns_disabled duplicate no_template : Code
  template_not_approved no_opt_in wrong_consent_purpose unsupported_language quiet_hours : Code

pub record EligibilityDecision : Type 0 where
  pub allowed : Bool
  pub code : Code

abbrev pub eligible : EligibilityDecision
eligible = record { allowed = true; code = Code.ok }

abbrev pub deny : Code → EligibilityDecision
deny code = record { allowed = false; code = code }

pub record SendContext : Type 0 where
  pub consent_status : ConsentStatus
  pub consent_purpose : Option ConsentPurpose
  pub suppressed : Bool
  pub template : Option TemplateDefinition
  pub now : ℕ
  pub already_sent_in_campaign : Bool

abbrev pub purpose_excludes_marketing : Option ConsentPurpose → Bool
purpose_excludes_marketing none = false
purpose_excludes_marketing (some p) = not (p == ConsentPurpose.marketing)

-- Steps 6 and 7: consent for the template's category.
unfoldable pub check_consent : SendContext → TemplateDefinition → EligibilityDecision
check_consent context template =
    if template.category == TemplateCategory.marketing
    then (if not (context.consent_status == ConsentStatus.opted_in)
        then deny Code.no_opt_in
        else if purpose_excludes_marketing context.consent_purpose
        then deny Code.wrong_consent_purpose
        else eligible)
    else if template.requires_opt_in && not (context.consent_status == ConsentStatus.opted_in)
    then deny Code.no_opt_in
    else eligible

-- Steps 5 to 9, for the template that the send uses.
unfoldable pub check_template :
    SendContext → BusinessConfig → BotConfig → Option TemplateDefinition → EligibilityDecision
unfolding check_consent
check_template context business bot none = deny Code.no_template
check_template context business bot (some template) =
    if not (template.status == TemplateStatus.approved)
    then deny Code.template_not_approved
    else if not (check_consent context template).allowed
    then check_consent context template
    else if not (any (λ language. language == template.language) business.supported_languages)
    then deny Code.unsupported_language
    else if is_within_quiet_hours context.now business bot
    then deny Code.quiet_hours
    else eligible

unfoldable pub evaluate_send_eligibility :
    SendContext → BusinessConfig → BotConfig → EligibilityDecision
unfolding check_template
evaluate_send_eligibility context business bot =
    if context.suppressed
    then deny Code.suppressed
    else if context.consent_status == ConsentStatus.opted_out
        || context.consent_status == ConsentStatus.suppressed
    then deny Code.opted_out
    else if not bot.features.campaigns_enabled
    then deny Code.campaigns_disabled
    else if context.already_sent_in_campaign
    then deny Code.duplicate
    else check_template context business bot context.template
