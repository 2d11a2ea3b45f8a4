-- ===== src/Repositories/Webhooks.antt =====
-- The idempotency ledger and the dead letters of app/repositories/conversations.py.
pub mod Ledger
use whatsapp_bot.Prelude.{
  ℕ, ◌+◌, String, Bool, true, false, Option, none, some, List, [], ◌∷◌, ◌++◌, ◌&&◌, any, where_,
  not, length, ltb, clip, ◌==◌, nat_eq, string_eq, if◌then◌else◌, take,
}
use whatsapp_bot.Domain.Models.{WebhookEvent, DeadLetter}
use whatsapp_bot.Store.Rows.{put}
use whatsapp_bot.Store.Session.{
  Db, World, M, pure, gets, scalar_one_or_none, modify_db, utcnow, fresh_id, ◌>>=◌, ◌>>◌,
}

unfoldable pub save_event : WebhookEvent → M WebhookEvent
save_event e = do
  modify_db (λ db. record db { webhook_events = put (λ r. r.id) e db.webhook_events })
  pure e

abbrev pub has_key : String → String → WebhookEvent → Bool
has_key business_id event_key e = e.business_id == business_id && e.event_key == event_key

unfoldable pub get_event : String → String → M (Option WebhookEvent)
get_event business_id event_key = do
  scalar_one_or_none (← gets (λ w. where_ (has_key business_id event_key) w.webhook_events))

abbrev pub event_row : ℕ → String → String → String → Option String → ℕ → WebhookEvent
event_row id business_id event_key event_type correlation now = record {
  id = id;
  business_id = business_id;
  event_key = event_key;
  event_type = event_type;
  processed = false;
  attempts = 1;
  last_error = none;
  correlation_id = correlation;
  processed_at = none;
  created_at = now;
}

-- The insert of `claim`: a row of another worker with the key makes the flush fail, which is
-- answered by a rollback and `False`. `claim` is the first and only operation of its session, and
-- has written nothing before the flush, so the rollback takes nothing else back.
unfoldable pub claim_insert : String → String → String → M Bool
claim_insert business_id event_key event_type = do
  taken ← gets (λ w. any (has_key business_id event_key) w.webhook_events)
  if taken then pure false else do
    id ← fresh_id
    correlation ← gets (λ w. w.correlation_id)
    now ← utcnow
    let row = event_row id business_id event_key event_type correlation now
    modify_db (λ db. record db { webhook_events = db.webhook_events ++ row ∷ [] })
    pure true

abbrev pub claim_found : String → String → String → Option WebhookEvent → M Bool
claim_found business_id event_key event_type none = claim_insert business_id event_key event_type
claim_found business_id event_key event_type (some e) =
    save_event (record e { attempts = e.attempts + 1 }) >> pure false

unfoldable pub claim : String → String → String → M Bool
unfolding get_event claim_insert save_event
claim business_id event_key event_type = do
  existing ← get_event business_id event_key
  claim_found business_id event_key event_type existing

abbrev pub mark_found : Option WebhookEvent → M (Unit {0})
mark_found none = pure tt
mark_found (some e) = do
  now ← utcnow
  save_event (record e { processed = true; processed_at = some now })
  pure tt

unfoldable pub mark_processed : String → String → M (Unit {0})
unfolding get_event save_event
mark_processed business_id event_key = do event ← get_event business_id event_key; mark_found event

abbrev pub fail_found : String → Option WebhookEvent → M ℕ
fail_found error none = pure 0
fail_found error (some e) = do
  save_event (record e { last_error = some (clip 1000 error) })
  pure e.attempts

-- Returns the attempt count.
unfoldable pub mark_failed : String → String → String → M ℕ
unfolding get_event save_event
mark_failed business_id event_key error = do
  event ← get_event business_id event_key
  fail_found error event

unfoldable pub purge_older_than : String → ℕ → M ℕ
purge_older_than business_id cutoff = do
  let old : WebhookEvent → Bool = λ e. e.business_id == business_id && ltb e.created_at cutoff
  gone ← gets (λ w. length (where_ old w.webhook_events))
  modify_db (λ db. record db { webhook_events = where_ (λ e. not (old e)) db.webhook_events })
  pure gone

-- `DeadLetterRepository.create`; the payload is left out.
unfoldable pub create_dead_letter : String → String → String → Option String → ℕ → M DeadLetter
create_dead_letter business_id source error event_key attempts = do
  id ← fresh_id
  correlation ← gets (λ w. w.correlation_id)
  let row : DeadLetter = record {
    id = id;
    business_id = business_id;
    source = source;
    event_key = event_key;
    error = clip 2000 error;
    attempts = attempts;
    resolved = false;
    correlation_id = correlation;
  }
  modify_db (λ db. record db { dead_letters = db.dead_letters ++ row ∷ [] })
  pure row

abbrev pub resolve_found : Option DeadLetter → M Bool
resolve_found none = pure false
resolve_found (some d) = do
  modify_db (λ db. record db {
    dead_letters = put (λ r. r.id) (record d { resolved = true }) db.dead_letters;
  })
  pure true

unfoldable pub resolve_dead_letter : String → ℕ → M Bool
resolve_dead_letter business_id id = do
  entry ←
      scalar_one_or_none
        (← gets (λ w. where_ (λ d. d.business_id == business_id && d.id == id) w.dead_letters))
  resolve_found entry
