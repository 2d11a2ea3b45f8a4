-- ===== src/Domain/Rules/Eligibility/Laws.antt =====
-- What the gate lets through, and which prohibition it names.
use whatsapp_bot.Prelude.{
  refl, true, false, none, some, ◌≡◌, ◌≢◌, ◌↔◌, arith, any, ◌==◌, string_eq, inl, inr, ◌⊎◌,
  Option-cases,
}
use whatsapp_bot.Domain.Enums.{ConsentStatus, ConsentPurpose, TemplateCategory, TemplateStatus}
use whatsapp_bot.Domain.Config.{BusinessConfig, BotConfig, TemplateDefinition}
use whatsapp_bot.Domain.Rules.Schedule.{is_within_quiet_hours}
use whatsapp_bot.Domain.Rules.Eligibility.{Code, SendContext, evaluate_send_eligibility}

module _ (context : SendContext) (business : BusinessConfig) (bot : BotConfig) where
  -- What a send with a template needs, as a list of requirements without an order.
  pub record MaySend (template : TemplateDefinition) : Type 0 where
    pub chosen : context.template ≡ some template
    pub not_suppressed : context.suppressed ≡ false
    pub not_opted_out : context.consent_status ≢ ConsentStatus.opted_out
    pub not_blocked : context.consent_status ≢ ConsentStatus.suppressed
    pub enabled : bot.features.campaigns_enabled ≡ true
    pub first : context.already_sent_in_campaign ≡ false
    pub approved : template.status ≡ TemplateStatus.approved
    pub opted_in : template.requires_opt_in ≡ true → context.consent_status ≡ ConsentStatus.opted_in
    pub marketing :
        template.category ≡ TemplateCategory.marketing
        → (context.consent_status ≡ ConsentStatus.opted_in)
          × ((context.consent_purpose ≡ none)
              ⊎ (context.consent_purpose ≡ some ConsentPurpose.marketing))
    pub language : any (λ l. l == template.language) business.supported_languages ≡ true
    pub awake : is_within_quiet_hours context.now business bot ≡ false

  no_template :
      context.template ≡ none → (evaluate_send_eligibility context business bot).allowed ≡ true → ⊥
  unfolding evaluate_send_eligibility
  no_template missing allowed = ground arith

  allowed-MaySend :
      (template : TemplateDefinition)
      → context.template ≡ some template
      → (evaluate_send_eligibility context business bot).allowed ≡ true
      → MaySend template
  unfolding evaluate_send_eligibility
  allowed-MaySend template chosen allowed = record {
    chosen = chosen;
    not_suppressed = ground arith;
    not_opted_out = ground arith;
    not_blocked = ground arith;
    enabled = ground arith;
    first = ground arith;
    approved = ground arith;
    opted_in = ground arith;
    marketing = ground arith;
    language = ground arith;
    awake = ground arith;
  }

  MaySend-allowed :
      (template : TemplateDefinition)
      → MaySend template
      → (evaluate_send_eligibility context business bot).allowed ≡ true
  unfolding evaluate_send_eligibility
  MaySend-allowed template may = ground (arith, may.opted_in, may.marketing)

  -- The gate allows a send exactly when some template is chosen and every requirement is met:
  -- recipient neither suppressed nor opted out, campaigns on, first send in the campaign, template
  -- approved, opt-in where the template or its category asks for it and for marketing, a supported
  -- language, and no quiet hours.
  pub evaluate_send_eligibility_iff :
      ((evaluate_send_eligibility context business bot).allowed ≡ true)
      ↔ ((template : TemplateDefinition) × MaySend template)
  evaluate_send_eligibility_iff = (
    λ allowed. elim (Option-cases context.template) [
      | inl missing ↦ absurd (no_template missing allowed)
      | inr (template, chosen) ↦ (template, allowed-MaySend template chosen allowed)
    ],
    λ (template, may). MaySend-allowed template may,
  )

opted_out_only :
    (context : SendContext) (business : BusinessConfig) (bot : BotConfig)
    → (evaluate_send_eligibility context business bot).code ≡ Code.opted_out
    → (context.suppressed ≡ false)
      × ((context.consent_status ≡ ConsentStatus.opted_out)
          ⊎ (context.consent_status ≡ ConsentStatus.suppressed))
unfolding evaluate_send_eligibility
opted_out_only context business bot c = (ground arith, ground arith)

opted_out_named :
    (context : SendContext) (business : BusinessConfig) (bot : BotConfig)
    → (context.suppressed ≡ false)
      × ((context.consent_status ≡ ConsentStatus.opted_out)
          ⊎ (context.consent_status ≡ ConsentStatus.suppressed))
    → (evaluate_send_eligibility context business bot).code ≡ Code.opted_out
unfolding evaluate_send_eligibility
opted_out_named context business bot (free, inl out) = rw (free, out) refl
opted_out_named context business bot (free, inr out) = rw (free, out) refl

-- The most absolute prohibition is the one that is named: `suppressed` is answered exactly for a
-- suppressed phone, `opted_out` exactly where the phone is not suppressed and the recorded status
-- is an opt-out or a suppression, and `ok` is the code of allowed sends and of no other.
pub evaluate_send_eligibility_order :
    (context : SendContext) (business : BusinessConfig) (bot : BotConfig)
    → (((evaluate_send_eligibility context business bot).code ≡ Code.suppressed)
        ↔ (context.suppressed ≡ true))
      × (((evaluate_send_eligibility context business bot).code ≡ Code.opted_out) ↔ (
          (context.suppressed ≡ false)
          × ((context.consent_status ≡ ConsentStatus.opted_out)
              ⊎ (context.consent_status ≡ ConsentStatus.suppressed))))
      × (((evaluate_send_eligibility context business bot).code ≡ Code.ok)
          ↔ ((evaluate_send_eligibility context business bot).allowed ≡ true))
unfolding evaluate_send_eligibility
evaluate_send_eligibility_order context business bot = (
  (λ c. ground arith, λ s. ground arith),
  (λ c. opted_out_only context business bot c, opted_out_named context business bot),
  (λ c. ground arith, λ a. ground arith),
)
