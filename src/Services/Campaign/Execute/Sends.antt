-- ===== src/Services/Campaign/Execute/Sends.antt =====
-- What a pass over a recipient sends, and when a run is paused.
use whatsapp_bot.Prelude.{
  usable, ◌+◌, ◌≡◌, refl, ◌∙◌, String, false, some, [], ◌∷◌, ◌++◌, ◌⊎◌, inl, inr, where_,
  Bool-cases, Option-cases,
}
use whatsapp_bot.Domain.Config.{BotConfig}
use whatsapp_bot.Domain.Models.{Contact, Campaign, CampaignRecipient}
use whatsapp_bot.Store.Rows.{AtMostOne-cases}
use whatsapp_bot.Store.Unique.{AtMostOne}
use whatsapp_bot.Store.Session.{World, M, Result-cases, Error, pure, attempt, ◌>>◌}
use whatsapp_bot.Store.Quiet.{Quiet, outbox-bind, outbox-attempt}
use whatsapp_bot.Repositories.Quiet.{add_message-Quiet, get_or_create_conversation-Quiet}
use whatsapp_bot.Repositories.Contacts.{
  contact_with_id, get_contact_by_id, suppressed_in, is_suppressed, touch_outbound,
}
use whatsapp_bot.Repositories.Conversations.{get_or_create_conversation}
use whatsapp_bot.Repositories.Messages.{add_message}
use whatsapp_bot.Repositories.Campaigns.{mark_sent, mark_recipient_failed, save_recipient}
use whatsapp_bot.Services.Campaign.Data.{Host, Run}
use whatsapp_bot.Services.Campaign.Execute.{
  process_recipient, process_contact, send_to, send_recipient, record_send, template_call, send,
  on_api_error, checked, template_message,
}

module _ (bot : BotConfig) (host : Host) (campaign : Campaign) where
  record_send-Quiet :
      (r : CampaignRecipient) (c : Contact) (meta_id : String) (w : World)
      → Quiet (record_send bot host campaign r c meta_id) w
  unfolding record_send mark_sent touch_outbound
  record_send-Quiet r c meta_id w =
      let w1 = (mark_sent r meta_id w).1 in
      let opened =
        get_or_create_conversation-Quiet campaign.business_id c.id bot.conversation_expiry_hours
          w1 in
      elim (Result-cases
        (get_or_create_conversation campaign.business_id c.id bot.conversation_expiry_hours w1)) [
          | inr (e, w2, failed) ↦ rw failed (rw failed at opened)
          | inl (conversation, w2, done) ↦
              let message = template_message campaign c conversation.id meta_id w2.correlation_id in
              let stored = add_message-Quiet message w2 in
              elim (Result-cases (add_message message w2)) [
                | inr (e, w3, failed) ↦
                    rw (done, failed) ((rw failed at stored) ∙ (rw done at opened))
                | inl (m, w3, added) ↦ rw (done, added) ((rw added at stored) ∙ (rw done at opened))
              ]
        ]

  on_api_error-Quiet :
      (r : CampaignRecipient) (run : Run) (e : Error) (w : World)
      → Quiet (on_api_error bot host r run e) w
  unfolding mark_recipient_failed
  on_api_error-Quiet r run (Error.whatsapp_api code message) w = refl
  on_api_error-Quiet r run Error.validation w = refl
  on_api_error-Quiet r run Error.configuration w = refl
  on_api_error-Quiet r run Error.circuit_open w = refl
  on_api_error-Quiet r run Error.llm w = refl
  on_api_error-Quiet r run Error.timeout w = refl
  on_api_error-Quiet r run Error.integrity w = refl
  on_api_error-Quiet r run Error.pending_rollback w = refl
  on_api_error-Quiet r run Error.multiple_results w = refl
  on_api_error-Quiet r run (Error.other text) w = refl

  send_recipient-once :
      (r : CampaignRecipient) (c : Contact) (phone : String) (w : World)
      → (send_recipient bot host campaign r c phone w).1.outbox
        ≡ w.outbox ++ template_call bot host campaign r phone ∷ []
  unfolding send_recipient
  send_recipient-once r c phone w =
      outbox-bind (send bot host (template_call bot host campaign r phone))
        (record_send bot host campaign r c) w (λ meta_id w'. record_send-Quiet r c meta_id w')

  send_to-once :
      (r : CampaignRecipient) (run : Run) (c : Contact) (phone : String) (w : World)
      → (send_to bot host campaign r run c (some phone) w).1.outbox
        ≡ w.outbox ++ template_call bot host campaign r phone ∷ []
  unfolding send_to
  send_to-once r run c phone w =
      let after : M Run =
        send_recipient bot host campaign r c phone
        >> pure (record run { sent_count = run.sent_count + 1 }) in
      outbox-bind (attempt after (on_api_error bot host r run))
        (λ run'. pure (checked bot host run')) w (λ _ _. refl)
      ∙ outbox-attempt after (on_api_error bot host r run) w (on_api_error-Quiet r run)
      ∙ outbox-bind (send_recipient bot host campaign r c phone)
          (λ _. pure (record run { sent_count = run.sent_count + 1 })) w (λ _ _. refl)
      ∙ send_recipient-once r c phone w

  -- The recipient has a contact that is not on the suppression list and whose phone is readable,
  -- and the calls grew by one template message to that phone.
  pub record IsSentOnce (r : CampaignRecipient) (w w' : World) : Type 0 where
    pub contact : Contact
    pub phone : String
    pub found : where_ (contact_with_id campaign.business_id r.contact_id) w.contacts ≡ contact ∷ []
    pub unsuppressed : suppressed_in w contact.business_id contact.phone_hash ≡ false
    pub readable : usable (host.decrypt contact.phone_encrypted) ≡ some phone
    pub called : w'.outbox ≡ w.outbox ++ template_call bot host campaign r phone ∷ []

  -- Where the recipient's contact id is unique, a pass over the recipient, whether it returns or
  -- raises, either calls nothing or sends one template message to the recipient's contact, who is
  -- not on the suppression list at that moment.
  pub process_recipient-sends_once :
      (run : Run) (r : CampaignRecipient) (w : World)
      → AtMostOne (contact_with_id campaign.business_id r.contact_id) w.contacts
      → let after = process_recipient bot host campaign run r w in
        (after.1.outbox ≡ w.outbox) ⊎ IsSentOnce r w after.1
  unfolding process_recipient get_contact_by_id process_contact is_suppressed save_recipient
      mark_recipient_failed
  process_recipient-sends_once run r w unique =
      elim (AtMostOne-cases (where_ (contact_with_id campaign.business_id r.contact_id) w.contacts)
        unique.bound) [
          | inl absent ↦ inl (rw absent refl)
          | inr (c, found) ↦ elim (Bool-cases (suppressed_in w c.business_id c.phone_hash)) [
            | inl listed ↦ inl (rw (found, listed) refl)
            | inr free ↦ elim (Option-cases (usable (host.decrypt c.phone_encrypted))) [
              | inl unreadable ↦ inl (rw (found, free, unreadable) refl)
              | inr (phone, readable) ↦ inr (record {
                contact = c;
                phone = phone;
                found = found;
                unsuppressed = free;
                readable = readable;
                called = rw (found, free, readable) (send_to-once r run c phone w);
              })
            ]
          ]
        ]
