-- ===== src/Services/Conversation/Failures.antt =====
-- A number that failed for good is not tried again.
use whatsapp_bot.Prelude.{
  ℕ, ◌≡◌, refl, String, true, false, Option, none, some, List, [], ◌∷◌, where_, inl, inr, ◌==◌,
}
use whatsapp_bot.Domain.Enums.{DeliveryStatus, ConsentStatus, consent_status_eq}
use whatsapp_bot.Domain.Models.{Contact, Message, CampaignRecipient}
use whatsapp_bot.Store.Rows.{put, AtMostOne-cases}
use whatsapp_bot.Store.Unique.{AtMostOne}
use whatsapp_bot.Store.Session.{World, ok, pure, bind-ok}
use whatsapp_bot.Repositories.Contacts.{
  contact_with_id, get_contact_by_id, suppressed_in, save_contact, create_suppression,
}
use whatsapp_bot.Repositories.Messages.{
  has_meta_id, apply_status, get_by_meta_id, update_delivery_status,
}
use whatsapp_bot.Repositories.Campaigns.{
  recipient_with_meta_id, get_recipient_by_meta_id, mark_recipient_failed,
}
use whatsapp_bot.Services.Consent.{suppress}
use whatsapp_bot.Services.Consent.Transitions.{IsListedOnce, create_suppression_lem}
use whatsapp_bot.Services.Conversation.Statuses.{
  StatusUpdate, StatusReason, campaign_of, mirror_in, mirror, is_permanent, stop_trying, apply_to,
  handle_status,
}

suppress-lists :
    (c : Contact) (reason : String) (detail : Option String) (w : World)
    → IsListedOnce w.suppressions c.business_id c.phone_hash
    → (w' : World) × (suppress c reason detail w
        ≡ (ok (record c { consent_status = ConsentStatus.suppressed }), w'))
      × (suppressed_in w' c.business_id c.phone_hash ≡ true)
unfolding suppress
suppress-lists c reason detail w once =
    let before : World =
      (save_contact (record c { consent_status = ConsentStatus.suppressed }) w).1 in
    let (e, rows, n, done, listed) =
      create_suppression_lem c.business_id c.phone_hash c.phone_masked reason detail before once in
    (
      record before { db = record before.db { suppressions = rows; next_id = n } },
      bind-ok (create_suppression c.business_id c.phone_hash c.phone_masked reason detail)
          (λ _. pure (record c { consent_status = ConsentStatus.suppressed })) done,
      listed,
    )

abbrev pub failure : String → ℕ → Option ℕ → Option String → StatusUpdate
failure meta_id moment code title = record {
  meta_message_id = meta_id;
  status = DeliveryStatus.failed;
  timestamp = moment;
  error_code = code;
  error_title = title;
}

module _ (meta_id : String) (moment : ℕ) (code : Option ℕ) (title : Option String) where
  -- The mirror changes no table but the recipients.
  mirror-keeps :
      (campaign : Option ℕ) (w : World)
      → ((id : ℕ) → AtMostOne (recipient_with_meta_id id meta_id) w.recipients)
      → (rows : List CampaignRecipient) × (mirror_in (failure meta_id moment code title) campaign w
          ≡ (ok tt, record w { db = record w.db { recipients = rows } }))
  unfolding get_recipient_by_meta_id mark_recipient_failed
  mirror-keeps none w once = (w.recipients, refl)
  mirror-keeps (some id) w once =
      elim (AtMostOne-cases (where_ (recipient_with_meta_id id meta_id) w.recipients)
        (once id).bound) [
          | inl absent ↦ (w.recipients, rw absent refl)
          | inr (r, found) ↦ (
            (mirror_in (failure meta_id moment code title) (some id) w).1.recipients,
            rw found refl,
          )
        ]

module _ (failure_text : Option ℕ → Option String → String) (business_id : String) where
  -- The last step for a failure that is permanent.
  stop_trying-lists :
      (meta_id : String) (moment : ℕ) (code : Option ℕ) (title : Option String) (m : Message)
      (c : Contact) (w : World)
      → where_ (contact_with_id business_id m.contact_id) w.contacts ≡ c ∷ []
      → (c.consent_status == ConsentStatus.opted_out) ≡ false
      → IsListedOnce w.suppressions c.business_id c.phone_hash
      → is_permanent code ≡ true
      → (w' : World) × (stop_trying failure_text business_id (failure meta_id moment code title) m w
          ≡ (ok tt, w'))
        × (suppressed_in w' c.business_id c.phone_hash ≡ true)
  unfolding stop_trying get_contact_by_id
  stop_trying-lists meta_id moment code title m c w found active once permanent =
      let (w', done, listed) =
        suppress-lists c "delivery_failure" (some (failure_text code title)) w once in
      (w', rw (permanent, found, active, done) refl, listed)

  -- A status that reports a permanent failure of a known message succeeds, and puts the phone of
  -- the message's contact on the suppression list, unless the contact has opted out; the message,
  -- the contact and the recipient are to be unique under their keys.
  pub handle_status-suppresses :
      (meta_id : String) (moment : ℕ) (code : Option ℕ) (title : Option String) (m : Message)
      (c : Contact) (w : World)
      → where_ (has_meta_id business_id meta_id) w.messages ≡ m ∷ []
      → ((id : ℕ) → AtMostOne (recipient_with_meta_id id meta_id) w.recipients)
      → where_ (contact_with_id business_id m.contact_id) w.contacts ≡ c ∷ []
      → (c.consent_status == ConsentStatus.opted_out) ≡ false
      → IsListedOnce w.suppressions c.business_id c.phone_hash
      → is_permanent code ≡ true
      → let after = handle_status failure_text business_id (failure meta_id moment code title) w in
        (after.0 ≡ ok (StatusReason.applied DeliveryStatus.failed))
        × (suppressed_in after.1 c.business_id c.phone_hash ≡ true)
  unfolding handle_status update_delivery_status get_by_meta_id apply_to mirror apply_status
  handle_status-suppresses meta_id moment code title m c w known recipients found active once
        permanent =
      let m' = apply_status m DeliveryStatus.failed code title moment in
      let w1 : World = record w { db = record w.db { messages = put (λ r. r.id) m' w.messages } } in
      let (rows, mirrored) =
        mirror-keeps meta_id moment code title (campaign_of m.campaign_id) w1 recipients in
      let w2 : World = record w1 { db = record w1.db { recipients = rows } } in
      let (w3, stopped, listed) =
        stop_trying-lists meta_id moment code title m' c w2 found active once permanent in
      rw (known, mirrored, stopped) (refl, listed)
