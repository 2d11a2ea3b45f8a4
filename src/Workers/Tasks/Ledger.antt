-- ===== src/Workers/Tasks/Ledger.antt =====
-- What the inbound task leaves in the event ledger.
use whatsapp_bot.Prelude.{
  ◌≡◌, refl, String, true, false, Option, some, [], ◌∷◌, any, where_, not, nat_eq, string_eq, ◌&&◌,
  leb, if◌then◌else◌, Bool-cases, inl, inr,
}
use whatsapp_bot.Store.Rows.{any-put_only, AtMostOne-cases}
use whatsapp_bot.Store.Unique.{AtMostOne}
use whatsapp_bot.Store.Session.{
  World, M, Error, Result-cases, IsOk, attempt, session_scope-raises, ok, err, session_scope,
}
use whatsapp_bot.Domain.Models.{WebhookEvent}
use whatsapp_bot.Repositories.Webhooks.{has_key, mark_processed, mark_failed, create_dead_letter}
use whatsapp_bot.Workers.Tasks.{
  max_attempts, is_flush_error, record_attempt, record_failure, process_event,
  process_inbound_message_task,
}

-- The exception that leaves the task for the one that the handler of the message raised.
abbrev pub escaping : Error → Error
escaping error = if is_flush_error error then Error.pending_rollback else error

mark_failed-IsOk :
    (b k error : String) (w : World)
    → AtMostOne (has_key b k) w.webhook_events
    → IsOk (mark_failed b k error w).0
unfolding mark_failed
mark_failed-IsOk b k error w once =
    elim (AtMostOne-cases (where_ (has_key b k) w.webhook_events) once.bound) [
      | inl absent ↦ rw absent tt
      | inr (e, found) ↦ rw found tt
    ]

module _ {A : Type 0} (handler : M A) (message : Error → String) (b k : String) where
  -- Where the session takes queries, the exception handler raises the exception it caught.
  record_attempt-raises :
      (error : Error) (w : World)
      → AtMostOne (has_key b k) w.webhook_events
      → (record_attempt {A = A} message b k error w).0 ≡ err error
  unfolding record_attempt create_dead_letter
  record_attempt-raises error w once = elim (Result-cases (mark_failed b k (message error) w)) [
    | inl (n, w', done) ↦ elim (Bool-cases (leb max_attempts n)) [
      | inl many ↦ rw (done, many) refl
      | inr few ↦ rw (done, few) refl
    ]
    | inr (e, w', failed) ↦ absurd (rw failed at (mark_failed-IsOk b k (message error) w once))
  ]

  record_failure-raises :
      (error : Error) (w : World)
      → AtMostOne (has_key b k) w.webhook_events
      → (record_failure {A = A} message b k error w).0 ≡ err (escaping error)
  unfolding record_failure
  record_failure-raises error w once = elim (Bool-cases (is_flush_error error)) [
    | inl flush ↦ rw flush refl
    | inr other ↦ rw other (record_attempt-raises error w once)
  ]

  -- Where the handler of an inbound message raises an exception and leaves at most one row of the
  -- event in the ledger, every table is as before the task: neither the error nor a dead letter is
  -- kept. The task raises the same exception; after a failed flush, the session's own in its place.
  pub process_inbound_message_task-raises :
      (correlation : Option String) (w : World) {w' : World} {e : Error}
      → handler (record w { correlation_id = correlation }) ≡ (err e, w')
      → AtMostOne (has_key b k) w'.webhook_events
      → let after = process_inbound_message_task handler message b k correlation w in
        (after.0 ≡ err (escaping e)) × (after.1.db ≡ w.db)
  unfolding process_inbound_message_task process_event
  process_inbound_message_task-raises correlation w {w' = w'} {e = e} failed once =
      session_scope-raises (attempt (process_event handler b k) (record_failure message b k))
        (rw failed (record_failure-raises e w' once))

  -- Where the handler of an inbound message succeeds and leaves one row of the event in the ledger,
  -- the task returns the handler's outcome and no row of the event is left unprocessed.
  pub process_inbound_message_task-marks :
      (correlation : Option String) (w : World) {w' : World} {a : A} {e : WebhookEvent}
      → handler (record w { correlation_id = correlation }) ≡ (ok a, w')
      → where_ (has_key b k) w'.webhook_events ≡ e ∷ []
      → let after = process_inbound_message_task handler message b k correlation w in
        (after.0 ≡ ok a)
        × (any (λ r. has_key b k r && not r.processed) after.1.webhook_events ≡ false)
  unfolding process_inbound_message_task process_event mark_processed session_scope
  process_inbound_message_task-marks correlation w {w' = w'} {e = e} done found =
      rw (done, found)
        (
          refl,
          any-put_only (λ r. r.id) (has_key b k) (λ r. not r.processed) e
              (record e { processed = true; processed_at = some w'.now }) w'.webhook_events found
              refl refl,
        )
