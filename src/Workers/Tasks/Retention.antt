-- ===== src/Workers/Tasks/Retention.antt =====
-- What the retention task deletes.
use whatsapp_bot.Prelude.{
  ℕ, ◌+◌, ◌-◌, ◌*◌, ◌≡◌, refl, String, Bool, not, List, where_, length, ltb, ◌&&◌, ◌==◌, string_eq,
  where_-where_, where_-not, length-where_-not, [],
}
use whatsapp_bot.Domain.Config.{day}
use whatsapp_bot.Domain.Models.{Message, WebhookEvent}
use whatsapp_bot.Store.Session.{World, ok}
use whatsapp_bot.Workers.Tasks.{purge_retention_data_task, Purged}

-- The rows after a deletion: no row that the test names is left, every other row is kept in its
-- place, and the count is exact.
pub record IsPurged {A : Type 0} (old : A → Bool) (gone : ℕ) (rows rows' : List A) : Type 0 where
  pub none_left : where_ old rows' ≡ []
  pub kept : where_ (λ r. not (old r)) rows' ≡ where_ (λ r. not (old r)) rows
  pub counted : gone + length rows' ≡ length rows

purged :
    {A : Type 0} (old : A → Bool) (rows : List A)
    → IsPurged old (length (where_ old rows)) rows (where_ (λ r. not (old r)) rows)
purged old rows = record {
  none_left = where_-not old rows;
  kept = where_-where_ (λ r. not (old r)) (λ r. not (old r)) rows λ r hit. hit;
  counted = length-where_-not old rows;
}

abbrev pub old_message : String → ℕ → Message → Bool
old_message b cutoff m = m.business_id == b && ltb m.created_at cutoff

abbrev pub old_event : String → ℕ → WebhookEvent → Bool
old_event b cutoff e = e.business_id == b && ltb e.created_at cutoff

-- The retention task returns; of the messages and of the webhook events of the business it
-- deletes exactly those created before the cutoff, the days of retention before now, and it
-- reports how many they were.
pub purge_retention_data_task-exact :
    (b : String) (days : ℕ) (w : World)
    → let cutoff = w.now - days * day in
      (counts : Purged) × (w' : World) × (purge_retention_data_task b days w ≡ (ok counts, w'))
      × IsPurged (old_message b cutoff) counts.purged_messages w.messages w'.messages
      × IsPurged (old_event b cutoff) counts.purged_webhooks w.webhook_events w'.webhook_events
unfolding purge_retention_data_task
purge_retention_data_task-exact b days w =
    let cutoff = w.now - days * day in
    (
      record {
        purged_webhooks = length (where_ (old_event b cutoff) w.webhook_events);
        purged_messages = length (where_ (old_message b cutoff) w.messages);
      },
      record w {
        db = record w.db {
          webhook_events = where_ (λ e. not (old_event b cutoff e)) w.webhook_events;
          messages = where_ (λ m. not (old_message b cutoff m)) w.messages;
        };
      },
      refl,
      purged (old_message b cutoff) w.messages,
      purged (old_event b cutoff) w.webhook_events,
    )
