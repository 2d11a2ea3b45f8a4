-- ===== src/Services/Campaign/Execute/Pauses.antt =====
-- When a run is paused.
use whatsapp_bot.Prelude.{
  ◌≡◌, ◌+◌, ◌*◌, ◌≤◌, leb, leb→le, ◌&&◌, String, Bool, true, false, Option, none, some, List, [],
  ◌∷◌, inl, inr, Bool-cases,
}
use whatsapp_bot.Domain.Config.{BotConfig}
use whatsapp_bot.Domain.Models.{Contact, Campaign, CampaignRecipient}
use whatsapp_bot.Store.Session.{World, ok, Returns, Returns-bind, Returns-then, pure, attempt, ◌>>◌}
use whatsapp_bot.Repositories.Contacts.{get_contact_by_id, is_suppressed, suppressed_in}
use whatsapp_bot.Repositories.Campaigns.{save_recipient, mark_recipient_failed}
use whatsapp_bot.Services.Campaign.Data.{Host, Run}
use whatsapp_bot.Services.Campaign.Execute.{
  process_recipient, process_contact, send_to, send_recipient, on_api_error, run_batch, usable,
  over_threshold, checked,
}

both : (p q : Bool) → (p && q) ≡ true → (p ≡ true) × (q ≡ true)
both true true h = (h, h)
both true false h = cc
both false q h = cc

module _ (bot : BotConfig) (host : Host) (campaign : Campaign) where
  -- A run goes on, or its counts are over the threshold.
  abbrev IsJustified : Run × Option String → Type 0
  IsJustified (run, none) = Unit
  IsJustified (run, some reason) = over_threshold bot run ≡ true

  checked-IsJustified : (run : Run) → IsJustified (checked bot host run)
  checked-IsJustified run = elim (Bool-cases (over_threshold bot run)) [
    | inl over ↦ rw over over
    | inr under ↦ rw under tt
  ]

  send_to-IsJustified :
      (r : CampaignRecipient) (run : Run) (c : Contact) (phone : Option String) (w : World)
      → Returns IsJustified (send_to bot host campaign r run c phone w)
  unfolding send_to mark_recipient_failed
  send_to-IsJustified r run c none w = tt
  send_to-IsJustified r run c (some phone) w =
      Returns-bind IsJustified
        (attempt
          (send_recipient bot host campaign r c phone
            >> pure (record run { sent_count = run.sent_count + 1 }))
          (on_api_error bot host r run))
        (λ run'. pure (checked bot host run')) w λ run' _. checked-IsJustified run'

  process_contact-IsJustified :
      (r : CampaignRecipient) (run : Run) (c : Option Contact) (w : World)
      → Returns IsJustified (process_contact bot host campaign r run c w)
  unfolding process_contact is_suppressed save_recipient
  process_contact-IsJustified r run none w = tt
  process_contact-IsJustified r run (some c) w =
      elim (Bool-cases (suppressed_in w c.business_id c.phone_hash)) [
        | inl listed ↦ rw listed tt
        | inr free ↦
            rw free (send_to-IsJustified r run c (usable (host.decrypt c.phone_encrypted)) w)
      ]

  process_recipient-IsJustified :
      (run : Run) (r : CampaignRecipient) (w : World)
      → Returns IsJustified (process_recipient bot host campaign run r w)
  unfolding process_recipient
  process_recipient-IsJustified run r w =
      Returns-bind IsJustified (get_contact_by_id campaign.business_id r.contact_id)
        (process_contact bot host campaign r run) w (process_contact-IsJustified r run)

  run_batch-IsJustified :
      (pending : List CampaignRecipient) (start : Run × Option String) (w : World)
      → IsJustified start
      → Returns IsJustified (run_batch bot host campaign pending start w)
  unfolding run_batch
  run_batch-IsJustified pending (run, some reason) w j = j
  run_batch-IsJustified [] (run, none) w j = tt
  run_batch-IsJustified (r ∷ pending) (run, none) w j =
      Returns-then IsJustified IsJustified (process_recipient bot host campaign run r)
        (run_batch bot host campaign pending) w (process_recipient-IsJustified run r w)
        λ start w' j'. run_batch-IsJustified pending start w' j'

  -- A batch pauses the campaign only where the run has sent or failed at least 10 times and the
  -- failed share reaches the configured rate.
  pub run_batch-paused :
      (pending : List CampaignRecipient) (run : Run) (w : World) {run' : Run} {reason : String}
      {w' : World}
      → run_batch bot host campaign pending (run, none) w ≡ (ok (run', some reason), w')
      → (10 ≤ run'.sent_count + run'.failed_count)
        × (bot.campaign.max_failure_rate * (run'.sent_count + run'.failed_count)
            ≤ run'.failed_count * 1000000)
  run_batch-paused pending run w {run' = run'} done =
      let all = run_batch-IsJustified pending (run, none) w tt in
      let over : over_threshold bot run' ≡ true = rw done at all in
      let (many, failing) =
        both (leb 10 (run'.sent_count + run'.failed_count))
          (leb (bot.campaign.max_failure_rate * (run'.sent_count + run'.failed_count))
            (run'.failed_count * 1000000))
          over in
      (
        leb→le 10 (run'.sent_count + run'.failed_count) many,
        leb→le (bot.campaign.max_failure_rate * (run'.sent_count + run'.failed_count))
            (run'.failed_count * 1000000) failing,
      )
