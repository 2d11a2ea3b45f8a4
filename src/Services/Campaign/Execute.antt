-- ===== src/Services/Campaign/Execute.antt =====
-- Executing a campaign, in app/services/campaign_service.py. The pacing between two sends is left
-- out: it sends and stores nothing.
pub mod Refusals
pub mod Sends
pub mod Pauses
use whatsapp_bot.Prelude.{
  is_blank, usable, ℕ, zero, suc, ◌+◌, ◌*◌, String, Bool, true, false, Option, none, some, List, [],
  ◌∷◌, ◌++◌, ◌&&◌, ◌||◌, leb, ltb, lstrip_plus, ◌==◌, or_none, if◌then◌else◌,
}
use whatsapp_bot.Domain.Enums.{
  CampaignStatus, CampaignRecipientStatus, Direction, MessageType, DeliveryStatus,
  campaign_status_eq,
}
use whatsapp_bot.Domain.Config.{BotConfig, TemplateDefinition}
use whatsapp_bot.Domain.Models.{Contact, Campaign, CampaignRecipient}
use whatsapp_bot.Store.Session.{
  World, Outgoing, M, Error, Result, pure, raise, gets, attempt, ◌>>=◌, ◌>>◌,
}
use whatsapp_bot.Repositories.Contacts.{is_suppressed, get_contact_by_id, touch_outbound}
use whatsapp_bot.Repositories.Conversations.{get_or_create_conversation}
use whatsapp_bot.Repositories.Messages.{NewMessage, add_message}
use whatsapp_bot.Repositories.Campaigns.{
  set_campaign_status, refresh_counters, list_by_status, mark_sent, mark_recipient_failed,
  save_recipient,
}
use whatsapp_bot.Services.Campaign.Data.{Host, body_variables, Run, CampaignExecutionSummary}
use whatsapp_bot.Services.Campaign.Stage.{get_template}

-- `max(1, batch_size)`
abbrev pub at_least_one : ℕ → ℕ
at_least_one zero = 1
at_least_one (suc n) = suc n

abbrev pub template_message : Campaign → Contact → ℕ → String → Option String → NewMessage
template_message campaign contact conversation_id meta_id correlation = record {
  business_id = campaign.business_id;
  conversation_id = conversation_id;
  contact_id = contact.id;
  direction = Direction.outbound;
  message_type = MessageType.template;
  meta_message_id = some meta_id;
  content_encrypted = none;
  content_preview = none;
  intent = none;
  confidence = none;
  delivery_status = some DeliveryStatus.sent;
  template_name = some campaign.template_name;
  template_language = some campaign.template_language;
  campaign_id = some campaign.id;
  correlation_id = correlation;
}

-- A paused run: at least 10 attempts, and the failed share reaches the configured rate, which is
-- counted in millionths.
abbrev pub over_threshold : BotConfig → Run → Bool
over_threshold bot run =
    leb 10 (run.sent_count + run.failed_count)
    && leb (bot.campaign.max_failure_rate * (run.sent_count + run.failed_count))
        (run.failed_count * 1000000)

abbrev pub is_finished : CampaignStatus → Bool
is_finished status =
    status == CampaignStatus.completed
    || status == CampaignStatus.cancelled
    || status == CampaignStatus.running

abbrev pub summary_of : Campaign → Bool → Option String → CampaignExecutionSummary
summary_of c auto_paused pause_reason = record {
  campaign_id = c.id;
  campaign_name = c.name;
  status = c.status;
  total = c.total;
  sent = c.sent;
  failed = c.failed;
  auto_paused = auto_paused;
  pause_reason = pause_reason;
}

module _ (bot : BotConfig) (host : Host) where
  -- The call is made, whatever the answer.
  unfoldable pub send : Outgoing → M String
  send call w = (host.answer w.outbox call, record w { outbox = w.outbox ++ call ∷ [] })

  -- What the `try` block stores after the send.
  unfoldable pub record_send : Campaign → CampaignRecipient → Contact → String → M (Unit {0})
  record_send campaign recipient contact meta_id = do
    mark_sent recipient meta_id
    conversation ←
        get_or_create_conversation campaign.business_id contact.id bot.conversation_expiry_hours
    correlation ← gets (λ w. w.correlation_id)
    add_message (template_message campaign contact conversation.id meta_id correlation)
    touch_outbound contact
    pure tt

  abbrev pub template_call : Campaign → CampaignRecipient → String → Outgoing
  template_call campaign recipient phone =
      Outgoing.send_template (lstrip_plus phone) campaign.template_name campaign.template_language
        (body_variables recipient.template_variables)

  -- The `try` block of a send.
  unfoldable pub send_recipient : Campaign → CampaignRecipient → Contact → String → M (Unit {0})
  unfolding send record_send
  send_recipient campaign recipient contact phone =
      send (template_call campaign recipient phone) >>= record_send campaign recipient contact

  abbrev pub fail_recipient : CampaignRecipient → Run → Option ℕ → String → M Run
  fail_recipient recipient run code detail = do
    mark_recipient_failed recipient code (some detail)
    pure (record run { failed_count = run.failed_count + 1 })

  -- `except WhatsAppAPIError`; only the send raises one, so the recipient is as it was loaded.
  abbrev pub on_api_error : CampaignRecipient → Run → Error → M Run
  on_api_error recipient run (Error.whatsapp_api code message) =
      fail_recipient recipient run code message
  on_api_error recipient run Error.validation = raise Error.validation
  on_api_error recipient run Error.configuration = raise Error.configuration
  on_api_error recipient run Error.circuit_open = raise Error.circuit_open
  on_api_error recipient run Error.llm = raise Error.llm
  on_api_error recipient run Error.timeout = raise Error.timeout
  on_api_error recipient run Error.integrity = raise Error.integrity
  on_api_error recipient run Error.pending_rollback = raise Error.pending_rollback
  on_api_error recipient run Error.multiple_results = raise Error.multiple_results
  on_api_error recipient run (Error.other text) = raise (Error.other text)

  abbrev pub checked : Run → Run × Option String
  checked run =
      if over_threshold bot run
      then (run, some (host.pause_text run.failed_count (run.sent_count + run.failed_count)))
      else (run, none)

  -- A recipient whose phone may or may not be readable. The threshold is not checked after a phone
  -- that is not.
  unfoldable pub send_to :
      Campaign → CampaignRecipient → Run → Contact → Option String → M (Run × Option String)
  unfolding send_recipient
  send_to campaign recipient run contact none =
      fail_recipient recipient run (some 0) "phone_decryption_failed" >>= λ run'. pure (run', none)
  send_to campaign recipient run contact (some phone) = do
    run' ←
        attempt
          (send_recipient campaign recipient contact phone
            >> pure (record run { sent_count = run.sent_count + 1 }))
          (on_api_error recipient run)
    pure (checked run')

  unfoldable pub process_contact :
      Campaign → CampaignRecipient → Run → Option Contact → M (Run × Option String)
  unfolding send_to
  process_contact campaign recipient run none = pure (run, none)
  process_contact campaign recipient run (some contact) = do
    suppressed ← is_suppressed contact.business_id contact.phone_hash
    if suppressed
        then (do
          save_recipient (record recipient {
            status = CampaignRecipientStatus.rejected;
            rejection_reason = some "suppressed_mid_campaign";
          })
          pure (run, none))
        else send_to campaign recipient run contact (usable (host.decrypt contact.phone_encrypted))

  -- One pass of the `for` loop: the run after it, and the reason of a pause.
  unfoldable pub process_recipient : Campaign → Run → CampaignRecipient → M (Run × Option String)
  unfolding process_contact
  process_recipient campaign run recipient = do
    contact ← get_contact_by_id campaign.business_id recipient.contact_id
    process_contact campaign recipient run contact

  -- The `for` loop, which a pause leaves.
  unfoldable pub run_batch :
      Campaign → List CampaignRecipient → Run × Option String → M (Run × Option String)
  run_batch campaign pending (run, some reason) = pure (run, some reason)
  run_batch campaign [] (run, none) = pure (run, none)
  run_batch campaign (r ∷ pending) (run, none) =
      process_recipient campaign run r >>= run_batch campaign pending

  abbrev pub next_batch : Campaign → M (List CampaignRecipient)
  next_batch campaign =
      list_by_status campaign.id CampaignRecipientStatus.eligible
        (at_least_one bot.campaign.batch_size)

  -- The `while` loop on fuel: `none` where the fuel is spent and recipients are still pending.
  unfoldable pub run_batches :
      ℕ → Campaign → List CampaignRecipient → Run → M (Option (Run × Option String))
  run_batches fuel campaign [] run = pure (some (run, none))
  run_batches zero campaign (r ∷ pending) run = pure none
  run_batches (suc fuel) campaign (r ∷ pending) run = do
    after ← run_batch campaign (r ∷ pending) (run, none)
    elim after.1 [
      | none ↦ next_batch campaign >>= λ batch. run_batches fuel campaign batch after.0
      | some reason ↦ pure (some (after.0, some reason))
    ]

  abbrev pub final_status : List CampaignRecipient → CampaignStatus
  final_status [] = CampaignStatus.completed
  final_status (r ∷ remaining) = CampaignStatus.paused

  -- The status after the loop.
  unfoldable pub settle : Campaign → Option String → M Campaign
  settle campaign (some reason) = set_campaign_status campaign CampaignStatus.paused (some reason)
  settle campaign none = do
    remaining ← list_by_status campaign.id CampaignRecipientStatus.eligible 1
    set_campaign_status campaign (final_status remaining) none

  abbrev pub is_some_reason : Option String → Bool
  is_some_reason none = false
  is_some_reason (some _) = true

  unfoldable pub finish_run :
      Campaign → Option (Run × Option String) → M (Option CampaignExecutionSummary)
  finish_run campaign none = pure none
  finish_run campaign (some (run, reason)) = do
    campaign' ← settle campaign reason
    campaign'' ← refresh_counters campaign'
    pure (some (summary_of campaign'' (is_some_reason reason) reason))

  unfoldable pub dry_run_of : Campaign → M (Option CampaignExecutionSummary)
  dry_run_of campaign = do
    campaign' ← refresh_counters campaign
    pure (some (summary_of campaign' false none))

  unfoldable pub execute_campaign :
      List TemplateDefinition → ℕ → Campaign → Bool → M (Option CampaignExecutionSummary)
  unfolding dry_run_of
  execute_campaign templates fuel campaign true = dry_run_of campaign
  execute_campaign templates fuel campaign false =
      if is_finished campaign.status then raise Error.validation else do
        running ← set_campaign_status campaign CampaignStatus.running none
        get_template templates running.template_name
        pending ← next_batch running
        result ← run_batches fuel running pending (record { sent_count = 0; failed_count = 0 })
        finish_run running result
