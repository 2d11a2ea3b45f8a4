-- ===== src/Tests/Campaign.antt =====
-- The campaign service and the background tasks at concrete inputs.
use whatsapp_bot.Prelude.{
  ℕ, ◌+◌, ◌-◌, ◌*◌, ◌≤◌, ◌≡◌, refl, String, false, none, some, List, [], ◌∷◌, ◌⊎◌, ◌&&◌, arith, any,
  not, length,
}
use whatsapp_bot.Domain.Config.{day, is_sendable}
use whatsapp_bot.Store.Session.{World, ok, err, Error, raise, pure}
use whatsapp_bot.Repositories.Contacts.{get_contact_by_id, is_suppressed, get_or_create_contact}
use whatsapp_bot.Repositories.Campaigns.{
  mark_recipient_failed, recipient_exists, create_recipient, refresh_counters,
}
use whatsapp_bot.Services.Consent.{check_eligibility}
use whatsapp_bot.Domain.Rules.Eligibility.{evaluate_send_eligibility}
use whatsapp_bot.Repositories.Webhooks.{has_key}
use whatsapp_bot.Services.Campaign.Data.{Run, RecipientRow, EligibilityReport}
use whatsapp_bot.Services.Campaign.Stage.{
  stage_recipients, stage_rows, stage_row, stage_phone, stage_contact, get_template,
}
use whatsapp_bot.Services.Campaign.Stage.Counts.{IsBalanced, stage_recipients-IsBalanced}
use whatsapp_bot.Services.Campaign.Execute.{execute_campaign, process_recipient, run_batch}
use whatsapp_bot.Services.Campaign.Execute.Refusals.{execute_campaign-silent}
use whatsapp_bot.Services.Campaign.Execute.Sends.{IsSentOnce, process_recipient-sends_once}
use whatsapp_bot.Services.Campaign.Execute.Pauses.{run_batch-paused}
use whatsapp_bot.Workers.Tasks.{process_inbound_message_task, purge_retention_data_task, Purged}
use whatsapp_bot.Workers.Tasks.Ledger.{
  process_inbound_message_task-raises, process_inbound_message_task-marks,
}
use whatsapp_bot.Workers.Tasks.Retention.{
  IsPurged, old_message, old_event, purge_retention_data_task-exact,
}
use whatsapp_bot.Samples.{
  shop, bot, offer, sale, update, start, tables, refusing, recipient, import_row,
}

-- The ledger holds one claimed event.
abbrev claimed_once : World
claimed_once = record start { db = record tables { webhook_events = update ∷ [] } }

abbrev message_of : Error → String
message_of e = "error"

process_inbound_message_task-raises_example :
    let after =
      process_inbound_message_task
        (raise {A = ℕ} Error.circuit_open)
        message_of
        "shop"
        "wamid.1"
        none
        claimed_once in
    (after.0 ≡ err Error.circuit_open) × (after.1.db ≡ claimed_once.db)
process_inbound_message_task-raises_example =
    process_inbound_message_task-raises (raise {A = ℕ} Error.circuit_open) message_of "shop"
      "wamid.1" none claimed_once {w' = claimed_once} refl (record { bound = ground arith })

process_inbound_message_task-marks_example :
    let after =
      process_inbound_message_task (pure {A = ℕ} 1) message_of "shop" "wamid.1" none claimed_once in
    (after.0 ≡ ok 1)
    × (any (λ r. has_key "shop" "wamid.1" r && not r.processed) after.1.webhook_events ≡ false)
process_inbound_message_task-marks_example =
    process_inbound_message_task-marks (pure {A = ℕ} 1) message_of "shop" "wamid.1" none
      claimed_once {w' = claimed_once} {e = update} refl refl

purge_retention_data_task-exact_example :
    let cutoff = claimed_once.now - 90 * day in
    (counts : Purged) × (w' : World) × (purge_retention_data_task "shop" 90 claimed_once
      ≡ (ok counts, w'))
    × IsPurged (old_message "shop" cutoff) counts.purged_messages claimed_once.messages w'.messages
    × IsPurged
        (old_event "shop" cutoff)
        counts.purged_webhooks
        claimed_once.webhook_events
        w'.webhook_events
purge_retention_data_task-exact_example = purge_retention_data_task-exact "shop" 90 claimed_once

execute_campaign-silent_example :
    (execute_campaign bot refusing (offer ∷ []) 5 sale false start).1.outbox ≡ start.outbox
execute_campaign-silent_example =
    execute_campaign-silent bot refusing (offer ∷ []) 5 sale false start refl

process_recipient-sends_once_example :
    let after =
      process_recipient bot refusing sale
        (record { sent_count = 0; failed_count = 0 })
        (recipient 10 1)
        start in
    (after.1.outbox ≡ start.outbox) ⊎ IsSentOnce bot refusing sale (recipient 10 1) start after.1
process_recipient-sends_once_example =
    process_recipient-sends_once bot refusing sale (record { sent_count = 0; failed_count = 0 })
      (recipient 10 1) start (record { bound = ground arith })

abbrev nine_failures : Run
nine_failures = record { sent_count = 0; failed_count = 9 }

abbrev ten_failures : Run
ten_failures = record { sent_count = 0; failed_count = 10 }

-- The tenth failure.
tenth : run_batch bot refusing sale (recipient 10 1 ∷ []) (nine_failures, none) start ≡ (
  ok (ten_failures, some "too many failures"),
  (run_batch bot refusing sale (recipient 10 1 ∷ []) (nine_failures, none) start).1,
)
unfolding run_batch process_recipient get_contact_by_id is_suppressed mark_recipient_failed
tenth = refl

run_batch-paused_example : (10 ≤ 0 + 10) × (200_000 * (0 + 10) ≤ 10 * 1_000_000)
run_batch-paused_example =
    run_batch-paused bot refusing sale (recipient 10 1 ∷ []) nine_failures start
      {run' = ten_failures} {reason = "too many failures"}
      {w' = (run_batch bot refusing sale (recipient 10 1 ∷ []) (nine_failures, none) start).1} tenth

-- An import of a row without a phone and of a customer who never opted in.
abbrev imported : List RecipientRow
imported = import_row "" ∷ import_row "+442" ∷ []

abbrev imported_report : EligibilityReport
imported_report = record {
  total_recipients = 2;
  tally = record {
    eligible = 0;
    rejected = 2;
    rejections = ("missing_phone", 1) ∷ ("no_opt_in", 1) ∷ [];
  };
}

staged : stage_recipients shop bot refusing (offer ∷ []) sale imported none start ≡ (
  ok imported_report,
  (stage_recipients shop bot refusing (offer ∷ []) sale imported none start).1,
)
unfolding stage_recipients stage_rows stage_row stage_phone stage_contact get_template
    get_or_create_contact recipient_exists create_recipient refresh_counters check_eligibility
    evaluate_send_eligibility is_sendable
staged = refl

stage_recipients-IsBalanced_example : (2 ≡ length imported) × IsBalanced 2 imported_report.tally
stage_recipients-IsBalanced_example =
    stage_recipients-IsBalanced shop bot refusing (offer ∷ []) sale imported none start
      {report = imported_report}
      {w' = (stage_recipients shop bot refusing (offer ∷ []) sale imported none start).1} staged
