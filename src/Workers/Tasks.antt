-- ===== src/Workers/Tasks.antt =====
-- The background tasks of app/workers/tasks.py.
pub mod Expiry
pub mod Ledger
pub mod OptOut
pub mod Retention
use whatsapp_bot.Prelude.{
  ℕ, ◌-◌, ◌*◌, String, Bool, List, Option, none, some, true, false, leb, if◌then◌else◌,
}
use whatsapp_bot.Domain.Config.{day, BotConfig, TemplateDefinition}
use whatsapp_bot.Domain.Models.{Campaign}
use whatsapp_bot.Store.Session.{
  World, M, Error, pure, raise, utcnow, set_correlation_id, attempt, session_scope, ◌>>=◌, ◌>>◌,
}
use whatsapp_bot.Repositories.Webhooks.{
  mark_processed, mark_failed, create_dead_letter, purge_older_than,
}
use whatsapp_bot.Repositories.Messages.{delete_older_than}
use whatsapp_bot.Repositories.Conversations.{expire_stale}
use whatsapp_bot.Repositories.Campaigns.{get_campaign_by_id}
use whatsapp_bot.Services.Campaign.Data.{Host, CampaignExecutionSummary}
use whatsapp_bot.Services.Campaign.Execute.{execute_campaign}

abbrev pub max_attempts : ℕ
max_attempts = 3

-- An exception of a failed flush: until a rollback, the session answers every query with
-- `PendingRollbackError`. `handle_inbound` catches none of them.
abbrev pub is_flush_error : Error → Bool
is_flush_error Error.integrity = true
is_flush_error Error.pending_rollback = true
is_flush_error error = false

-- The `except` block of the inbound task, where the session takes queries.
unfoldable pub record_attempt : {A : Type 0} → (Error → String) → String → String → Error → M A
record_attempt message business_id event_key error = do
  attempts ← mark_failed business_id event_key (message error)
  if leb max_attempts attempts
      then (create_dead_letter business_id "inbound_webhook" (message error) (some event_key)
            attempts
          >> raise error)
      else raise error

-- The `except` block of the inbound task. After a failed flush its first query raises.
unfoldable pub record_failure : {A : Type 0} → (Error → String) → String → String → Error → M A
record_failure message business_id event_key error =
    if is_flush_error error
    then raise Error.pending_rollback
    else record_attempt message business_id event_key error

-- The `try` block of the inbound task.
unfoldable pub process_event : {A : Type 0} → M A → String → String → M A
process_event handle_inbound business_id event_key = do
  outcome ← handle_inbound
  mark_processed business_id event_key
  pure outcome

-- `process_inbound_message_task`, for any handler of the event; `message` is `str(exc)`.
unfoldable pub process_inbound_message_task :
    {A : Type 0} → M A → (Error → String) → String → String → Option String → M A
process_inbound_message_task handle_inbound message business_id event_key correlation_id = do
  set_correlation_id correlation_id
  session_scope (
      attempt (process_event handle_inbound business_id event_key)
        (record_failure message business_id event_key))

-- `process_status_update_task`, for any handler of the status.
unfoldable pub process_status_update_task :
    {A : Type 0} → M A → String → String → Option String → M A
process_status_update_task handle_status business_id event_key correlation_id = do
  set_correlation_id correlation_id
  session_scope (process_event handle_status business_id event_key)

unfoldable pub cleanup_expired_conversations_task : String → M ℕ
cleanup_expired_conversations_task business_id = session_scope (expire_stale business_id none)

pub record Purged : Type 0 where
  pub purged_webhooks : ℕ
  pub purged_messages : ℕ

-- Times count from the epoch, so a cutoff before it is as good as the epoch.
unfoldable pub purge_retention_data_task : String → ℕ → M Purged
unfolding purge_older_than delete_older_than session_scope
purge_retention_data_task business_id retention_days = do
  now ← utcnow
  let cutoff = now - retention_days * day
  session_scope do
    purged_webhooks ← purge_older_than business_id cutoff
    purged_messages ← delete_older_than business_id cutoff
    pure (record { purged_webhooks = purged_webhooks; purged_messages = purged_messages })

-- What the campaign task answers: an error for an unknown campaign, or the summary of the run.
pub data CampaignReport : Type 0 where
  not_found : CampaignReport
  ran : Option CampaignExecutionSummary → CampaignReport

module _ (bot : BotConfig) (host : Host) (templates : List TemplateDefinition) (fuel : ℕ) where
  abbrev pub run_found : Bool → Option Campaign → M CampaignReport
  run_found dry_run none = pure not_found
  run_found dry_run (some campaign) =
      execute_campaign bot host templates fuel campaign dry_run >>= λ summary. pure (ran summary)

  -- One transaction around the whole run; `none` in the report is spent fuel.
  unfoldable pub execute_campaign_task : String → ℕ → Bool → Option String → M CampaignReport
  execute_campaign_task business_id campaign_id dry_run correlation_id = do
    set_correlation_id correlation_id
    session_scope (get_campaign_by_id business_id campaign_id >>= run_found dry_run)
