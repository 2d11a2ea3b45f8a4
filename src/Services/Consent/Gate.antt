-- ===== src/Services/Consent/Gate.antt =====
-- What the eligibility check makes of the recorded consent.
use whatsapp_bot.Prelude.{
  ℕ, ◌≤◌, ◌≡◌, string_eq, ◌≢◌, refl, String, Bool, true, false, Option, none, some, List, [], ◌∷◌,
  arith, any, where_, ◌==◌, Option-cases, inl, inr,
}
use whatsapp_bot.Domain.Enums.{ConsentStatus, ConsentPurpose, TemplateStatus, consent_purpose_eq}
use whatsapp_bot.Domain.Config.{BusinessConfig, BotConfig, TemplateDefinition}
use whatsapp_bot.Domain.Models.{Contact, ConsentRecord}
use whatsapp_bot.Domain.Rules.Eligibility.{
  Code, deny, eligible, evaluate_send_eligibility, purpose_excludes_marketing,
}
use whatsapp_bot.Store.Session.{World, ok}
use whatsapp_bot.Repositories.Contacts.{suppressed_in}
use whatsapp_bot.Repositories.Consents.{of_purpose, latest}
use whatsapp_bot.Domain.Rules.Schedule.{is_within_quiet_hours}
use whatsapp_bot.Services.Consent.{check_eligibility, opted_in_purpose, opt_in, opt_out, or_now}
use whatsapp_bot.Services.Consent.Transitions.{IsListedOnce, opt_in_effect, opt_out_effect}

latest-purpose :
    (id : ℕ) (p : ConsentPurpose) (rows : List ConsentRecord) (r : ConsentRecord)
    → latest (where_ (of_purpose id p) rows) ≡ some r
    → of_purpose id p r ≡ true
latest-purpose id p [] r h = cc
latest-purpose id p (x ∷ xs) r h = elim (Option-cases (latest (where_ (of_purpose id p) xs))) [
  | inl nothing ↦ ground (arith, nothing)
  | inr (s, found) ↦ ground (arith, found, latest-purpose id p xs s found)
]

-- The purpose that reaches the gate is marketing or none: only marketing evidence is looked up.
looked_up_purpose :
    (id : ℕ) (rows : List ConsentRecord)
    → purpose_excludes_marketing
        (opted_in_purpose (latest (where_ (of_purpose id ConsentPurpose.marketing) rows)))
      ≡ false
looked_up_purpose id rows =
    elim (Option-cases (latest (where_ (of_purpose id ConsentPurpose.marketing) rows))) [
      | inl nothing ↦ rw nothing
      | inr (r, found) ↦
          ground (arith, found, latest-purpose id ConsentPurpose.marketing rows r found)
    ]

module _ (business : BusinessConfig) (bot : BotConfig) where
  -- A contact whose phone is on the list is refused for every template, at every time, whatever the
  -- contact's status and evidence, and the check changes nothing.
  pub check_eligibility-suppressed :
      (c : Contact) (template : Option TemplateDefinition) (now : ℕ) (sent : Bool) (w : World)
      → suppressed_in w c.business_id c.phone_hash ≡ true
      → check_eligibility business bot c template now sent w ≡ (ok (deny Code.suppressed), w)
  unfolding check_eligibility evaluate_send_eligibility
  check_eligibility-suppressed c none now sent w listed = rw listed
  check_eligibility-suppressed c (some t) now sent w listed = rw listed

  -- The check never answers `wrong_consent_purpose`: that branch of the gate is not reached.
  pub check_eligibility-wrong_purpose :
      (c : Contact) (template : Option TemplateDefinition) (now : ℕ) (sent : Bool) (w : World)
      → (check_eligibility business bot c template now sent w).0
        ≢ ok (deny Code.wrong_consent_purpose)
  unfolding check_eligibility evaluate_send_eligibility
  check_eligibility-wrong_purpose c none now sent w = λ h. ground arith
  check_eligibility-wrong_purpose c (some t) now sent w =
      λ h. ground (arith, looked_up_purpose c.id w.consents)

  -- A template that the gate would send to an opted-in recipient at this time.
  pub record IsSendable (t : TemplateDefinition) (now : ℕ) : Type 0 where
    pub approved : t.status ≡ TemplateStatus.approved
    pub language : any (λ l. l == t.language) business.supported_languages ≡ true
    pub enabled : bot.features.campaigns_enabled ≡ true
    pub awake : is_within_quiet_hours now business bot ≡ false

  allowed_when_opted_in :
      (c : Contact) (t : TemplateDefinition) (now : ℕ) (w : World)
      → IsSendable t now
      → c.consent_status ≡ ConsentStatus.opted_in
      → suppressed_in w c.business_id c.phone_hash ≡ false
      → check_eligibility business bot c (some t) now false w ≡ (ok eligible, w)
  unfolding check_eligibility evaluate_send_eligibility
  allowed_when_opted_in c t now w s opted clear =
      ground (arith, s.approved, s.language, s.enabled, s.awake, looked_up_purpose c.id w.consents)

  -- Where the phone is listed once at most and the opt-in is not dated after the clock, an opt-in
  -- lets every template through that is sendable then, marketing included, whatever
  -- purpose the customer agreed to and whatever marketing evidence is on record, an earlier
  -- opt-out included.
  pub opt_in_any_purpose :
      (c : Contact) (source : String) (purpose : ConsentPurpose) (evidence : Option String)
      (occurred_at : Option ℕ) (t : TemplateDefinition) (now : ℕ) (w : World)
      → IsListedOnce w.suppressions c.business_id c.phone_hash
      → or_now occurred_at w.now ≤ w.now
      → IsSendable t now
      → let (_, w') = opt_in c source purpose evidence occurred_at w in
        check_eligibility business bot
          (record c { consent_status = ConsentStatus.opted_in })
          (some t)
          now
          false
          w'
        ≡ (ok eligible, w')
  opt_in_any_purpose c source purpose evidence occurred_at t now w once past s =
      let (_, lifted, _, _) = opt_in_effect c source evidence occurred_at w once purpose past in
      allowed_when_opted_in (record c { consent_status = ConsentStatus.opted_in }) t now
        (opt_in c source purpose evidence occurred_at w).1 s refl lifted

  -- Where the phone is listed once at most, after an opt-out the check refuses the contact every
  -- template at every time.
  pub opt_out_blocks :
      (c : Contact) (source : String) (evidence : Option String) (reason : String)
      (occurred_at : Option ℕ) (template : Option TemplateDefinition) (now : ℕ) (sent : Bool)
      (w : World)
      → IsListedOnce w.suppressions c.business_id c.phone_hash
      → let (_, w') = opt_out c source evidence reason occurred_at w in
        check_eligibility business bot
          (record c { consent_status = ConsentStatus.opted_out })
          template
          now
          sent
          w'
        ≡ (ok (deny Code.suppressed), w')
  opt_out_blocks c source evidence reason occurred_at template now sent w once =
      let (_, listed, _, _) = opt_out_effect c source evidence occurred_at w once reason in
      check_eligibility-suppressed (record c { consent_status = ConsentStatus.opted_out }) template
        now sent (opt_out c source evidence reason occurred_at w).1 listed
