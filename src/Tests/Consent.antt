-- ===== src/Tests/Consent.antt =====
-- The consent service at concrete inputs.
use whatsapp_bot.Prelude.{
  ◌≡◌, refl, string_eq, nat_eq, true, false, none, some, List, [], ◌∷◌, ◌++◌, arith,
}
use whatsapp_bot.Domain.Enums.{ConsentStatus, ConsentPurpose}
use whatsapp_bot.Domain.Rules.Eligibility.{Code, deny, eligible}
use whatsapp_bot.Domain.Rules.Schedule.{is_within_quiet_hours}
use whatsapp_bot.Store.Rows.{put}
use whatsapp_bot.Store.Session.{World, ok}
use whatsapp_bot.Repositories.Contacts.{suppressed_in}
use whatsapp_bot.Services.Consent.{opt_out, opt_in, check_eligibility}
use whatsapp_bot.Services.Consent.Transitions.{
  IsListedOnce, evidence_row, opt_out_effect, opt_in_effect,
}
use whatsapp_bot.Services.Consent.Gate.{IsSendable, opt_in_any_purpose, opt_out_blocks}
use whatsapp_bot.Services.Consent.Histories.{
  IsListed, ConsentEvent, opting_out, opting_in, after_events, suppression_persists,
}
use whatsapp_bot.Samples.{shop, bot, offer, noon, grace, listed, start, tables}
use whatsapp_bot.Domain.Models.{Contact}

start-IsListedOnce : IsListedOnce start.suppressions "shop" "h1"
start-IsListedOnce = record { bound = omega arith }

-- The world in which the phone of `grace` is on the list.
abbrev blocked : World
blocked = record start { db = record tables { suppressions = listed ∷ [] } }

blocked-IsListedOnce : IsListedOnce blocked.suppressions "shop" "h1"
blocked-IsListedOnce = record { bound = ground arith }

opt_out_effect_example :
    let (r, w') = opt_out grace "sms" none "opt_out" none start in
    (r ≡ ok (record grace { consent_status = ConsentStatus.opted_out }))
    × (suppressed_in w' "shop" "h1" ≡ true)
    × (w'.contacts
        ≡ put
            (λ x. x.id)
            (record grace { consent_status = ConsentStatus.opted_out })
            start.contacts)
    × (w'.consents
        ≡ start.consents
          ++ evidence_row grace "sms" none none start start-IsListedOnce ConsentStatus.opted_out
              ConsentPurpose.marketing
            ∷ [])
opt_out_effect_example = opt_out_effect grace "sms" none none start start-IsListedOnce "opt_out"

opt_in_effect_example :
    let (r, w') = opt_in grace "web" ConsentPurpose.marketing none (some 5) blocked in
    (r ≡ ok (record grace { consent_status = ConsentStatus.opted_in }))
    × (suppressed_in w' "shop" "h1" ≡ false)
    × (w'.contacts
        ≡ put
            (λ x. x.id)
            (record grace { consent_status = ConsentStatus.opted_in })
            blocked.contacts)
    × (w'.consents
        ≡ blocked.consents
          ++ evidence_row grace "web" none
              (some 5)
              blocked
              blocked-IsListedOnce
              ConsentStatus.opted_in
              ConsentPurpose.marketing
            ∷ [])
opt_in_effect_example =
    opt_in_effect grace "web" none (some 5) blocked blocked-IsListedOnce ConsentPurpose.marketing
      (ground arith)

awake_at_noon : is_within_quiet_hours noon shop bot ≡ false
unfolding is_within_quiet_hours
awake_at_noon = ground arith

offer-IsSendable : IsSendable shop bot offer noon
offer-IsSendable = record {
  approved = refl;
  language = refl;
  enabled = refl;
  awake = awake_at_noon;
}

-- A customer who agreed to utility messages is sent marketing.
opt_in_any_purpose_example :
    let (_, w') = opt_in grace "web" ConsentPurpose.utility none (some 5) blocked in
    check_eligibility shop bot
      (record grace { consent_status = ConsentStatus.opted_in })
      (some offer)
      noon
      false
      w'
    ≡ (ok eligible, w')
opt_in_any_purpose_example =
    opt_in_any_purpose shop bot grace "web" ConsentPurpose.utility none (some 5) offer noon blocked
      blocked-IsListedOnce (ground arith) offer-IsSendable

opt_out_blocks_example :
    let (_, w') = opt_out grace "sms" none "opt_out" none start in
    check_eligibility shop bot
      (record grace { consent_status = ConsentStatus.opted_out })
      (some offer)
      noon
      false
      w'
    ≡ (ok (deny Code.suppressed), w')
opt_out_blocks_example =
    opt_out_blocks shop bot grace "sms" none "opt_out" none (some offer) noon false start
      start-IsListedOnce

blocked-IsListed : IsListed "shop" "h1" blocked.db
blocked-IsListed = record {
  consistent = record {
    below = (ground arith, tt);
    unique_id = λ i. record { bound = ground arith };
    listed_once = λ b h. record { bound = ground arith };
  };
  listed = ground arith;
}

-- Another contact opts in, and `grace` opts out again.
abbrev alan : Contact
alan = record grace { id = 9; phone_hash = "h2" }

abbrev events : List ConsentEvent
events =
    opting_in alan "web" ConsentPurpose.marketing none none
    ∷ opting_out grace "sms" none "opt_out" none
    ∷ []

alan_apart : ¬ ((alan.business_id ≡ "shop") × (alan.phone_hash ≡ "h1"))
alan_apart (_, same) = let differ = (string_eq.beq_iff "h2" "h1").1 same in cc

suppression_persists_example :
    let w' = after_events events blocked in
    check_eligibility shop bot grace (some offer) noon false w' ≡ (ok (deny Code.suppressed), w')
suppression_persists_example =
    suppression_persists shop bot grace events (some offer) noon false blocked blocked-IsListed
      (alan_apart, (tt, tt))
