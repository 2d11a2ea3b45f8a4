-- ===== src/Api/Webhooks.antt =====
-- app/api/webhooks.py: claiming and dispatching the events of one webhook call.
pub mod Delivery
pub mod Loss
pub mod Endpoint
pub mod Authentic
use whatsapp_bot.Prelude.{
  ℕ, ◌+◌, String, Bool, true, false, Option, none, some, List, [], ◌∷◌, ◌++◌, if◌then◌else◌,
}
use whatsapp_bot.Store.Session.{
  World, M, Error, Job, inbound_message, status_update, ok, err, pure, session_scope, ◌>>=◌, ◌>>◌,
}
use whatsapp_bot.Repositories.Webhooks.{claim}

-- The queue's answer to a job, after the jobs so far: none, or the exception that it raises.
abbrev pub Queue : Type 0
Queue = Job → List Job → Option Error

abbrev pub enqueue_answered : Option Error → Job → M (Unit {0})
enqueue_answered none job w = (ok tt, record w { jobs = w.jobs ++ job ∷ [] })
enqueue_answered (some error) job w = (err error, w)

-- `enqueue_inbound_message` and `enqueue_status_update` of the dispatcher.
unfoldable pub enqueue : Queue → Job → M (Unit {0})
enqueue queue job w = enqueue_answered (queue job w.jobs) job w

module _ (queue : Queue) (business_id : String) where
  -- One of the two loops of `handle_webhook`, over the keys of its events: each event is claimed in
  -- a transaction of its own, and dispatched if the claim succeeds. Returns the number claimed. An
  -- application always has a session factory and a dispatcher.
  unfoldable pub claim_and_dispatch : (String → Job) → String → List String → M ℕ
  claim_and_dispatch job event_type [] = pure 0
  claim_and_dispatch job event_type (key ∷ keys) = do
    claimed ← session_scope (claim business_id key event_type)
    let rest = claim_and_dispatch job event_type keys
    if claimed then (enqueue queue (job key) >> (rest >>= λ n. pure (n + 1))) else rest

  -- Messages first, then delivery statuses.
  unfoldable pub handle_events : List String → List String → M ℕ
  handle_events messages statuses = do
    m ← claim_and_dispatch inbound_message "inbound_message" messages
    s ← claim_and_dispatch status_update "status_update" statuses
    pure (m + s)
