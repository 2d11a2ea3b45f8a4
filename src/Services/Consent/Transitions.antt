-- ===== src/Services/Consent/Transitions.antt =====
-- What each consent transition leaves behind.
use whatsapp_bot.Prelude.{
  ℕ, ◌+◌, ◌<◌, ◌≤◌, ◌≡◌, refl, String, Bool, true, false, Option, some, List, [], ◌∷◌, ◌++◌, arith,
  any, where_, any-append, ltb, string_eq, text_eq_refl, inl, inr,
}
use whatsapp_bot.Domain.Enums.{ConsentStatus, ConsentPurpose}
use whatsapp_bot.Domain.Models.{Contact, ConsentRecord, SuppressionEntry}
use whatsapp_bot.Store.Rows.{
  put, delete, any-delete, any_of_where_, any_of_where_-nil, AtMostOne-cases,
}
use whatsapp_bot.Store.Unique.{AtMostOne}
use whatsapp_bot.Store.Session.{World, ok, err, Error, pure, bind-ok}
use whatsapp_bot.Repositories.Contacts.{
  suppressed_in, suppresses, save_contact, create_suppression, remove_suppression,
}
use whatsapp_bot.Repositories.Consents.{record_consent}
use whatsapp_bot.Services.Consent.{opt_out, opt_in, or_now}

-- A phone is listed once at most: the constraint `uq_suppression_business_phone`.
abbrev pub IsListedOnce : List SuppressionEntry → String → String → Type 0
IsListedOnce rows business_id phone_hash = AtMostOne (suppresses business_id phone_hash) rows

-- Suppressing succeeds, lists the phone and changes no other table.
pub create_suppression_lem :
    (b h m r : String) (detail : Option String) (w : World)
    → IsListedOnce w.suppressions b h
    → (e : SuppressionEntry) × (rows : List SuppressionEntry) × (n : ℕ) × (create_suppression b h m
          r detail w
        ≡ (ok e, record w { db = record w.db { suppressions = rows; next_id = n } }))
      × (any (suppresses b h) rows ≡ true)
unfolding create_suppression
create_suppression_lem b h m r detail w once =
    elim (AtMostOne-cases (where_ (suppresses b h) w.suppressions) once.bound) [
      | inl new ↦ (
        record {
          id = w.next_id;
          business_id = b;
          phone_hash = h;
          phone_masked = m;
          reason = r;
          detail = detail;
          suppressed_at = w.now;
        },
        w.suppressions
            ++ record {
              id = w.next_id;
              business_id = b;
              phone_hash = h;
              phone_masked = m;
              reason = r;
              detail = detail;
              suppressed_at = w.now;
            }
              ∷ [],
        w.next_id + 1,
        rw new,
        rw any-append (ground (arith, text_eq_refl b, text_eq_refl h)),
      )
      | inr (e, old) ↦
          (e, w.suppressions, w.next_id, rw old, any_of_where_ (suppresses b h) w.suppressions old)
    ]

-- Lifting a suppression that is listed once leaves the phone unlisted and no other table changed.
pub remove_suppression_lem :
    (b h : String) (w : World)
    → IsListedOnce w.suppressions b h
    → (found : Bool) × (rows : List SuppressionEntry) × (remove_suppression b h w
        ≡ (ok found, record w { db = record w.db { suppressions = rows } }))
      × (any (suppresses b h) rows ≡ false)
unfolding remove_suppression
remove_suppression_lem b h w once =
    elim (AtMostOne-cases (where_ (suppresses b h) w.suppressions) once.bound) [
      | inl absent ↦ (
        false,
        w.suppressions,
        rw absent,
        any_of_where_-nil (suppresses b h) w.suppressions absent,
      )
      | inr (e, listed) ↦ (
        true,
        delete (λ r. r.id) e w.suppressions,
        rw listed,
        any-delete (λ r. r.id) (suppresses b h) e w.suppressions listed,
      )
    ]

module _ (c : Contact) (source : String) (evidence : Option String) (occurred_at : Option ℕ)
    (w : World) (once : IsListedOnce w.suppressions c.business_id c.phone_hash) where
  -- The evidence that a transition appends.
  abbrev pub evidence_row : ConsentStatus → ConsentPurpose → ConsentRecord
  evidence_row status purpose = record {
    id = w.next_id;
    business_id = c.business_id;
    contact_id = c.id;
    status = status;
    purpose = purpose;
    source = source;
    occurred_at = or_now occurred_at w.now;
    evidence = evidence;
    correlation_id = w.correlation_id;
  }

  abbrev pub noted : ConsentStatus → ConsentPurpose → World
  noted status purpose =
      (record_consent c.business_id c.id status purpose source (or_now occurred_at w.now) evidence
        (save_contact (record c { consent_status = status }) w).1).1

  -- An opt-out succeeds, and after the marks it changes the list only.
  pub opt_out-run :
      (reason : String)
      → (rows : List SuppressionEntry) × (n : ℕ) × (opt_out c source evidence reason occurred_at w
          ≡ (
            ok (record c { consent_status = ConsentStatus.opted_out }),
            record (noted ConsentStatus.opted_out ConsentPurpose.marketing) {
              db = record (noted ConsentStatus.opted_out ConsentPurpose.marketing).db {
                suppressions = rows;
                next_id = n;
              };
            },
          ))
        × (any (suppresses c.business_id c.phone_hash) rows ≡ true)
  unfolding opt_out
  opt_out-run reason =
      let (e, rows, n, done, listed) =
        create_suppression_lem c.business_id c.phone_hash c.phone_masked reason evidence
          (noted ConsentStatus.opted_out ConsentPurpose.marketing) once in
      (
        rows,
        n,
        bind-ok (create_suppression c.business_id c.phone_hash c.phone_masked reason evidence)
            (λ _. pure (record c { consent_status = ConsentStatus.opted_out })) done,
        listed,
      )

  -- Where the phone is listed once at most, an opt-out succeeds, marks the contact, lists its phone
  -- and appends one record of evidence, dated by the event.
  pub opt_out_effect :
      (reason : String)
      → let (r, w') = opt_out c source evidence reason occurred_at w in
        (r ≡ ok (record c { consent_status = ConsentStatus.opted_out }))
        × (suppressed_in w' c.business_id c.phone_hash ≡ true)
        × (w'.contacts
            ≡ put (λ x. x.id) (record c { consent_status = ConsentStatus.opted_out }) w.contacts)
        × (w'.consents
            ≡ w.consents ++ evidence_row ConsentStatus.opted_out ConsentPurpose.marketing ∷ [])
  unfolding record_consent save_contact
  opt_out_effect reason =
      let (rows, n, end, listed) = opt_out-run reason in rw end (refl, listed, refl, refl)

  -- Where the phone is listed once at most, an opt-in that is not dated after the clock succeeds,
  -- marks the contact, takes its phone off the
  -- list and appends one record of evidence with the stated purpose.
  pub opt_in_effect :
      (purpose : ConsentPurpose)
      → or_now occurred_at w.now ≤ w.now
      → let (r, w') = opt_in c source purpose evidence occurred_at w in
        (r ≡ ok (record c { consent_status = ConsentStatus.opted_in }))
        × (suppressed_in w' c.business_id c.phone_hash ≡ false)
        × (w'.contacts
            ≡ put (λ x. x.id) (record c { consent_status = ConsentStatus.opted_in }) w.contacts)
        × (w'.consents ≡ w.consents ++ evidence_row ConsentStatus.opted_in purpose ∷ [])
  unfolding opt_in
  opt_in_effect purpose past =
      let due : ltb w.now (or_now occurred_at w.now) ≡ false = ground arith in
      let before : World = noted ConsentStatus.opted_in purpose in
      let (found, rows, done, lifted) =
        remove_suppression_lem c.business_id c.phone_hash before once in
      let end : opt_in c source purpose evidence occurred_at w ≡ (
        ok (record c { consent_status = ConsentStatus.opted_in }),
        record before { db = record before.db { suppressions = rows } },
      ) =
        rw due (
          bind-ok (remove_suppression c.business_id c.phone_hash)
            (λ _. pure (record c { consent_status = ConsentStatus.opted_in })) done) in
      rw end (refl, lifted, refl, refl)

-- An opt-in dated after the clock is refused and changes nothing.
pub opt_in_future :
    (c : Contact) (source : String) (purpose : ConsentPurpose) (evidence : Option String)
    (moment : ℕ) (w : World)
    → w.now < moment
    → opt_in c source purpose evidence (some moment) w ≡ (err Error.validation, w)
unfolding opt_in
opt_in_future c source purpose evidence moment w late = ground arith
