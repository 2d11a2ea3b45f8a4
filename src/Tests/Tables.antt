-- ===== src/Tests/Tables.antt =====
-- The repositories and the webhook endpoint at concrete inputs.
use whatsapp_bot.Prelude.{
  ℕ, ◌≡◌, refl, String, true, false, none, some, List, [], ◌∷◌, arith, where_, length, map, any,
  not, ◌==◌, string_eq, ◌&&◌, ◌||◌,
}
use whatsapp_bot.Domain.Enums.{DeliveryStatus}
use whatsapp_bot.Domain.Models.{Message, Conversation}
use whatsapp_bot.Store.Session.{World, Error, ok, err, inbound_message}
use whatsapp_bot.Repositories.Messages.{apply_status, or_queued}
use whatsapp_bot.Repositories.Messages.Delivery.{
  StatusEvent, receive, IsFurthest, receive-IsFurthest, apply_status-failed,
}
use whatsapp_bot.Repositories.Conversations.{get_or_create_conversation}
use whatsapp_bot.Repositories.Conversations.Expiry.{IsLive, get_or_create_conversation-IsLive}
use whatsapp_bot.Workers.Tasks.{cleanup_expired_conversations_task}
use whatsapp_bot.Workers.Tasks.Expiry.{is_overdue, swept, cleanup_expired_conversations_task-exact}
use whatsapp_bot.Repositories.Consents.{set_paused, is_paused}
use whatsapp_bot.Repositories.Consents.Switch.{IsSwitchTable, set_paused-is_paused}
use whatsapp_bot.Repositories.Webhooks.{claim}
use whatsapp_bot.Repositories.Webhooks.Ledger.{IsLedger, claimed, claim_lem}
use whatsapp_bot.Api.Webhooks.{Queue, claim_and_dispatch}
use whatsapp_bot.Api.Webhooks.Delivery.{Dispatched, claim_and_dispatch_once}
use whatsapp_bot.Api.Webhooks.Loss.{claim_and_dispatch-loses}
use whatsapp_bot.Samples.{start, sent_message}

abbrev at : DeliveryStatus → ℕ → StatusEvent
at status moment = record { status = status; code = none; detail = none; moment = moment }

abbrev out_of_order : List StatusEvent
out_of_order = at DeliveryStatus.read 30 ∷ at DeliveryStatus.delivered 20 ∷ []

receive-IsFurthest_example :
    IsFurthest sent_message out_of_order
      (or_queued (receive out_of_order sent_message).delivery_status)
receive-IsFurthest_example = receive-IsFurthest out_of_order sent_message (refl, (refl, tt))

abbrev failed_message : Message
failed_message = record sent_message { delivery_status = some DeliveryStatus.failed }

apply_status-failed_example :
    (apply_status failed_message DeliveryStatus.sent none none 40).delivery_status
    ≡ some DeliveryStatus.sent
apply_status-failed_example = apply_status-failed failed_message (at DeliveryStatus.sent 40) refl

get_or_create_conversation-IsLive_example :
    (c : Conversation) × (w' : World) × (get_or_create_conversation "shop" 1 24 start ≡ (ok c, w'))
    × IsLive "shop" 1 c w'
get_or_create_conversation-IsLive_example =
    get_or_create_conversation-IsLive "shop" 1 24 start (omega arith)

cleanup_expired_conversations_task-exact_example :
    (cleanup_expired_conversations_task "shop" start ≡ (
      ok (length (where_ (is_overdue "shop" start.now) start.conversations)),
      record start {
        db = record start.db { conversations = map (swept "shop" start.now) start.conversations };
      },
    ))
    × (any
          (is_overdue "shop" start.now)
          (cleanup_expired_conversations_task "shop" start).1.conversations
        ≡ false)
cleanup_expired_conversations_task-exact_example =
    cleanup_expired_conversations_task-exact "shop" start

start-IsLedger : IsLedger start.db
start-IsLedger = record {
  below = tt;
  unique_id = λ i. record { bound = omega arith };
  once = λ b k. record { bound = omega arith };
}

claim_lem_example :
    let (r, w') = claim "shop" "wamid.1" "inbound_message" start in
    (r ≡ ok (not (claimed "shop" "wamid.1" start)))
    × (w'.jobs ≡ start.jobs)
    × IsLedger w'.db
    × ((b' k' : String)
        → claimed b' k' w' ≡ (claimed b' k' start || "shop" == b' && "wamid.1" == k'))
claim_lem_example = claim_lem "shop" "wamid.1" "inbound_message" start start-IsLedger

-- One delivery that repeats an event.
abbrev delivered_keys : List String
delivered_keys = "wamid.1" ∷ "wamid.2" ∷ "wamid.1" ∷ []

-- A queue that takes every job.
abbrev taking : Queue
taking job jobs = none

claim_and_dispatch_once_example :
    Dispatched taking "shop" inbound_message "inbound_message" delivered_keys start
      (claim_and_dispatch taking "shop" inbound_message "inbound_message" delivered_keys start).0
      (claim_and_dispatch taking "shop" inbound_message "inbound_message" delivered_keys start).1
claim_and_dispatch_once_example =
    claim_and_dispatch_once taking "shop" inbound_message "inbound_message" (λ j js. refl)
      delivered_keys start start-IsLedger

-- The queue is down at first.
claim_and_dispatch-loses_example :
    let down : Queue = λ job jobs. some (Error.other "ConnectionError") in
    let first =
      claim_and_dispatch down "shop" inbound_message "inbound_message" delivered_keys start in
    let again =
      claim_and_dispatch taking "shop" inbound_message "inbound_message" ("wamid.1" ∷ []) first.1 in
    (first.0 ≡ err (Error.other "ConnectionError"))
    × (first.1.jobs ≡ start.jobs)
    × (again.0 ≡ ok 0)
    × (again.1.jobs ≡ start.jobs)
claim_and_dispatch-loses_example =
    claim_and_dispatch-loses "shop" inbound_message "inbound_message" "wamid.1"
      (λ job jobs. some (Error.other "ConnectionError")) taking _ start
      (Error.other "ConnectionError") start-IsLedger refl refl

start-IsSwitchTable : IsSwitchTable start.bot_states start.next_id
start-IsSwitchTable = record {
  below = tt;
  unique_id = λ i. record { bound = omega arith };
  once = λ b. record { bound = omega arith };
}

set_paused-is_paused_example :
    (is_paused "shop" (set_paused "shop" true (some "holiday") (some "ada") start).1).0 ≡ ok true
set_paused-is_paused_example =
    set_paused-is_paused "shop" true (some "holiday") (some "ada") start start-IsSwitchTable
