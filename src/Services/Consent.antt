-- ===== src/Services/Consent.antt =====
-- app/services/consent_service.py: opt-out, opt-in, suppression and the eligibility check. A method
-- that sets attributes of the contact returns the contact with them.
pub mod Transitions
pub mod Gate
pub mod Histories
use whatsapp_bot.Prelude.{
  ℕ, String, Bool, true, false, Option, none, some, ltb, if◌then◌else◌, ◌==◌,
}
use whatsapp_bot.Domain.Enums.{ConsentStatus, ConsentPurpose, consent_status_eq}
use whatsapp_bot.Domain.Config.{BusinessConfig, BotConfig, TemplateDefinition}
use whatsapp_bot.Domain.Models.{Contact, ConsentRecord}
use whatsapp_bot.Domain.Rules.Eligibility.{
  SendContext, EligibilityDecision, evaluate_send_eligibility,
}
use whatsapp_bot.Store.Session.{M, Error, pure, raise, utcnow, ◌>>=◌, ◌>>◌}
use whatsapp_bot.Repositories.Contacts.{
  save_contact, is_suppressed, create_suppression, remove_suppression,
}
use whatsapp_bot.Repositories.Consents.{record_consent, latest_for_purpose}

-- `occurred_at or datetime.now(UTC)`
abbrev pub or_now : Option ℕ → ℕ → ℕ
or_now none now = now
or_now (some moment) _ = moment

unfoldable pub opt_out : Contact → String → Option String → String → Option ℕ → M Contact
unfolding save_contact record_consent
opt_out contact source evidence reason occurred_at = do
  now ← utcnow
  let moment = or_now occurred_at now
  contact' ← save_contact (record contact { consent_status = ConsentStatus.opted_out })
  record_consent contact.business_id contact.id ConsentStatus.opted_out ConsentPurpose.marketing
      source moment evidence
  create_suppression contact.business_id contact.phone_hash contact.phone_masked reason evidence
  pure contact'

unfoldable pub opt_in : Contact → String → ConsentPurpose → Option String → Option ℕ → M Contact
unfolding save_contact record_consent
opt_in contact source purpose evidence occurred_at = do
  now ← utcnow
  let moment = or_now occurred_at now
  if ltb now moment then raise Error.validation else do
    contact' ← save_contact (record contact { consent_status = ConsentStatus.opted_in })
    record_consent contact.business_id contact.id ConsentStatus.opted_in purpose source moment
        evidence
    remove_suppression contact.business_id contact.phone_hash
    pure contact'

unfoldable pub suppress : Contact → String → Option String → M Contact
unfolding save_contact
suppress contact reason detail = do
  contact' ← save_contact (record contact { consent_status = ConsentStatus.suppressed })
  create_suppression contact.business_id contact.phone_hash contact.phone_masked reason detail
  pure contact'

abbrev pub opted_in_purpose : Option ConsentRecord → Option ConsentPurpose
opted_in_purpose none = none
opted_in_purpose (some latest) =
    if latest.status == ConsentStatus.opted_in then some latest.purpose else none

-- The purpose is looked up only where there is a template.
abbrev pub consent_purpose_for : Contact → Option TemplateDefinition → M (Option ConsentPurpose)
consent_purpose_for contact none = pure none
consent_purpose_for contact (some _) =
    latest_for_purpose contact.id ConsentPurpose.marketing >>= λ r. pure (opted_in_purpose r)

module _ (business : BusinessConfig) (bot : BotConfig) where
  unfoldable pub check_eligibility :
      Contact → Option TemplateDefinition → ℕ → Bool → M EligibilityDecision
  unfolding is_suppressed latest_for_purpose
  check_eligibility contact template now already_sent_in_campaign = do
    suppressed ← is_suppressed contact.business_id contact.phone_hash
    purpose ← consent_purpose_for contact template
    let context : SendContext = record {
      consent_status = contact.consent_status;
      consent_purpose = purpose;
      suppressed = suppressed;
      template = template;
      now = now;
      already_sent_in_campaign = already_sent_in_campaign;
    }
    pure (evaluate_send_eligibility context business bot)
