-- ===== src/Services/Conversation/Statuses.antt =====
-- `handle_status` of app/services/conversation_service.py.
use whatsapp_bot.Prelude.{
  ℕ, zero, suc, String, Bool, false, Option, none, some, ◌&&◌, ◌||◌, not, ◌==◌, nat_eq,
  if◌then◌else◌,
}
use whatsapp_bot.Domain.Enums.{
  DeliveryStatus, CampaignRecipientStatus, ConsentStatus, delivery_status_eq, consent_status_eq,
}
use whatsapp_bot.Domain.Models.{Contact, Message, CampaignRecipient}
use whatsapp_bot.Store.Session.{M, pure, ◌>>=◌, ◌>>◌}
use whatsapp_bot.Repositories.Contacts.{get_contact_by_id}
use whatsapp_bot.Repositories.Messages.{update_delivery_status}
use whatsapp_bot.Repositories.Campaigns.{
  get_recipient_by_meta_id, mark_recipient_failed, set_recipient_status,
}
use whatsapp_bot.Services.Consent.{suppress}

-- The parts of `StatusUpdate` that the handler reads; `error_title` is its property.
pub record StatusUpdate : Type 0 where
  pub meta_message_id : String
  pub status : DeliveryStatus
  pub timestamp : ℕ
  pub error_code : Option ℕ
  pub error_title : Option String

-- The reason of the outcome: `unknown_message`, or `status_` and the status.
pub data StatusReason : Type 0 where
  unknown_message : StatusReason
  applied : DeliveryStatus → StatusReason

-- `if message.campaign_id`
abbrev pub campaign_of : Option ℕ → Option ℕ
campaign_of none = none
campaign_of (some zero) = none
campaign_of (some (suc id)) = some (suc id)

-- The status of the recipient, whatever it was before.
abbrev pub mirror_status : StatusUpdate → DeliveryStatus → CampaignRecipient → M (Unit {0})
mirror_status event DeliveryStatus.delivered r =
    set_recipient_status r CampaignRecipientStatus.delivered >> pure tt
mirror_status event DeliveryStatus.read r =
    set_recipient_status r CampaignRecipientStatus.read >> pure tt
mirror_status event DeliveryStatus.failed r =
    mark_recipient_failed r event.error_code event.error_title >> pure tt
mirror_status event DeliveryStatus.queued r = pure tt
mirror_status event DeliveryStatus.sent r = pure tt
mirror_status event DeliveryStatus.accepted r = pure tt
mirror_status event DeliveryStatus.deleted r = pure tt

abbrev pub mirror_found : StatusUpdate → Option CampaignRecipient → M (Unit {0})
mirror_found event none = pure tt
mirror_found event (some r) = mirror_status event event.status r

abbrev pub mirror_in : StatusUpdate → Option ℕ → M (Unit {0})
mirror_in event none = pure tt
mirror_in event (some id) = get_recipient_by_meta_id id event.meta_message_id >>= mirror_found event

unfoldable pub mirror : StatusUpdate → Message → M (Unit {0})
mirror event message = mirror_in event (campaign_of message.campaign_id)

abbrev pub is_permanent : Option ℕ → Bool
is_permanent none = false
is_permanent (some code) = code == 131026 || code == 131047

module _ (failure_text : Option ℕ → Option String → String) (business_id : String) where
  abbrev pub suppress_found : StatusUpdate → Option Contact → M (Unit {0})
  suppress_found event none = pure tt
  suppress_found event (some contact) =
      if not (contact.consent_status == ConsentStatus.opted_out)
      then (suppress contact "delivery_failure"
            (some (failure_text event.error_code event.error_title))
          >> pure tt)
      else pure tt

  -- Stop trying a number that failed for good.
  unfoldable pub stop_trying : StatusUpdate → Message → M (Unit {0})
  stop_trying event message =
      if event.status == DeliveryStatus.failed && is_permanent event.error_code
      then get_contact_by_id business_id message.contact_id >>= suppress_found event
      else pure tt

  unfoldable pub apply_to : StatusUpdate → Option Message → M StatusReason
  apply_to event none = pure StatusReason.unknown_message
  apply_to event (some message) = do
    mirror event message
    stop_trying event message
    pure (StatusReason.applied event.status)

  -- `failure_text` is the sentence "Meta error {code}: {title}".
  unfoldable pub handle_status : StatusUpdate → M StatusReason
  handle_status event = do
    message ←
        update_delivery_status business_id event.meta_message_id event.status event.error_code
          event.error_title event.timestamp
    apply_to event message
