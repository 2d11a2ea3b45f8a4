-- ===== src/Services/Campaign/Stage.antt =====
-- Creating a campaign and staging its recipients, in app/services/campaign_service.py.
pub mod Counts
use whatsapp_bot.Prelude.{
  is_blank, ℕ, ◌+◌, String, Bool, true, false, Option, none, some, List, [], ◌∷◌, not, find, length,
  or_text, ◌==◌, string_eq, if◌then◌else◌,
}
use whatsapp_bot.Domain.Enums.{CampaignRecipientStatus}
use whatsapp_bot.Domain.Config.{BusinessConfig, BotConfig, TemplateDefinition, is_sendable}
use whatsapp_bot.Domain.Models.{Contact, Campaign}
use whatsapp_bot.Domain.Rules.Eligibility.{EligibilityDecision}
use whatsapp_bot.Store.Session.{M, Error, pure, raise, utcnow, ◌>>=◌, ◌>>◌}
use whatsapp_bot.Repositories.Contacts.{get_or_create_contact}
use whatsapp_bot.Repositories.Campaigns.{
  create_campaign_row, get_campaign_by_name, refresh_counters, create_recipient, recipient_exists,
}
use whatsapp_bot.Services.Consent.{check_eligibility, or_now}
use whatsapp_bot.Domain.Phone.{NormalisedPhone}
use whatsapp_bot.Services.Campaign.Data.{
  Host, RecipientRow, Tally, reject, EligibilityReport, code_value, raw_phone,
}

-- `by_name(name)[0]`, whatever its language.
abbrev pub sendable_template : Option TemplateDefinition → M TemplateDefinition
sendable_template none = raise Error.configuration
sendable_template (some t) = if not (is_sendable t) then raise Error.validation else pure t

unfoldable pub get_template : List TemplateDefinition → String → M TemplateDefinition
get_template templates name = sendable_template (find (λ t. t.name == name) templates)

-- `template_variables_json` wins over `template_variables`; JSON that does not parse is empty.
abbrev pub variables_of : Host → RecipientRow → List (String × String)
variables_of host row = elim row.template_variables_json [
  | none ↦ row.template_variables
  | some text ↦ elim (host.json_loads text) [ none ↦ [] | some variables ↦ variables ]
]

abbrev pub decided_status : EligibilityDecision → CampaignRecipientStatus
decided_status d =
    if d.allowed then CampaignRecipientStatus.eligible else CampaignRecipientStatus.rejected

abbrev pub decided_reason : Host → EligibilityDecision → Option String
decided_reason host d = if not d.allowed then some (host.reason_text d.code) else none

abbrev pub count_decision : EligibilityDecision → Tally → Tally
count_decision d t =
    if d.allowed then record t { eligible = t.eligible + 1 } else reject (code_value d.code) t

module _ (business : BusinessConfig) (bot : BotConfig) (host : Host)
    (templates : List TemplateDefinition) where
  abbrev pub unused_name : Option Campaign → M (Unit {0})
  unused_name none = pure tt
  unused_name (some _) = raise Error.validation

  unfoldable pub create_campaign : String → String → Option String → M Campaign
  create_campaign name template_name template_language = do
    template ← get_template templates template_name
    let language =
        or_text template_language (or_text (some template.language) business.default_language)
    existing ← get_campaign_by_name business.business_id name
    unused_name existing
    create_campaign_row business.business_id name template.name language

  -- The gate and the row of a contact that is not staged yet.
  unfoldable pub stage_contact :
      Campaign → TemplateDefinition → ℕ → RecipientRow → Contact → Tally → M Tally
  stage_contact campaign template moment row contact t = do
    decision ← check_eligibility business bot contact (some template) moment false
    create_recipient campaign.id contact.id (decided_status decision) (variables_of host row)
        (decided_reason host decision)
    pure (count_decision decision t)

  -- One row of the import.
  unfoldable pub stage_phone :
      Campaign → TemplateDefinition → ℕ → RecipientRow → Tally → Option NormalisedPhone → M Tally
  stage_phone campaign template moment row t none = pure (reject "invalid_phone" t)
  stage_phone campaign template moment row t (some phone) = do
    found ←
        get_or_create_contact business.business_id phone.hash (host.encrypt phone.e164) phone.masked
          row.first_name (or_text row.locale business.default_language)
    let contact = found.0
    staged ← recipient_exists campaign.id contact.id
    if staged
        then pure (reject "already_in_campaign" t)
        else stage_contact campaign template moment row contact t

  unfoldable pub stage_row : Campaign → TemplateDefinition → ℕ → RecipientRow → Tally → M Tally
  stage_row campaign template moment row t =
      if is_blank (raw_phone row)
      then pure (reject "missing_phone" t)
      else stage_phone campaign template moment row t (host.normalise_phone (raw_phone row))

  unfoldable pub stage_rows :
      Campaign → TemplateDefinition → ℕ → List RecipientRow → Tally → M Tally
  stage_rows campaign template moment [] t = pure t
  stage_rows campaign template moment (row ∷ rows) t =
      stage_row campaign template moment row t >>= stage_rows campaign template moment rows

  unfoldable pub stage_recipients : Campaign → List RecipientRow → Option ℕ → M EligibilityReport
  stage_recipients campaign recipient_rows now = do
    template ← get_template templates campaign.template_name
    clock ← utcnow
    let moment = or_now now clock
    tally ←
        stage_rows campaign template moment recipient_rows
          (record { eligible = 0; rejected = 0; rejections = [] })
    refresh_counters campaign
    pure (record { total_recipients = length recipient_rows; tally = tally })
