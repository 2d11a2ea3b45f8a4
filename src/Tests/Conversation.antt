-- ===== src/Tests/Conversation.antt =====
-- Delivery statuses at a concrete input.
use whatsapp_bot.Prelude.{
  ℕ, ◌+◌, ◌≤◌, count, ◌≡◌, refl, String, true, false, ◌||◌, Option, none, some, [], ◌∷◌, arith,
}
use whatsapp_bot.Domain.Enums.{DeliveryStatus}
use whatsapp_bot.Store.Session.{World, Error, ok, err, Returns}
use whatsapp_bot.Repositories.Contacts.{
  suppressed_in, get_or_create_contact, save_contact, touch_inbound,
}
use whatsapp_bot.Services.Conversation.Statuses.{StatusReason, handle_status}
use whatsapp_bot.Services.Conversation.Failures.{failure, handle_status-suppresses}
use whatsapp_bot.Services.Conversation.Inbound.{Reason, resolve_contact}
use whatsapp_bot.Services.Conversation.Pauses.{handle_inbound-paused}
use whatsapp_bot.Workers.Tasks.{process_inbound_message_task}
use whatsapp_bot.Workers.Tasks.OptOut.{process_inbound_message_task-loses_opt_out}
use whatsapp_bot.Repositories.Conversations.{get_or_create_conversation, touch_conversation}
use whatsapp_bot.Repositories.Messages.{add_message}
use whatsapp_bot.Repositories.Consents.{is_paused}
use whatsapp_bot.Domain.Rules.Keywords.{detect_opt_out, normalise_keyword_text, search_phrase}
use whatsapp_bot.Domain.Rules.Schedule.{service_window_open}
use whatsapp_bot.Services.Conversation.Handle.{receive, mark_read, handle_inbound}
use whatsapp_bot.Services.Conversation.OptOut.{handle_inbound-opt_out}
use whatsapp_bot.Services.Conversation.Texts.{handle_inbound-Texts}
use whatsapp_bot.Store.Quiet.{is_text}
use whatsapp_bot.Samples.Messaging.{answering, inbound, sender}
use whatsapp_bot.Samples.{shop, bot, noon, start, sent_message, grace}

abbrev failure_text : Option ℕ → Option String → String
failure_text code title = "Meta error"

-- The number of the sent message is not on WhatsApp.
handle_status-suppresses_example :
    let after = handle_status failure_text "shop" (failure "m1" 50 (some 131026) none) start in
    (after.0 ≡ ok (StatusReason.applied DeliveryStatus.failed))
    × (suppressed_in after.1 "shop" "h1" ≡ true)
handle_status-suppresses_example =
    handle_status-suppresses failure_text "shop" "m1" 50 (some 131026) none sent_message grace start
      refl (λ id. record { bound = ground arith }) refl refl (record { bound = ground arith }) refl

-- A customer who unsubscribes.
handle_inbound-opt_out_example :
    let after = handle_inbound shop bot (answering (ok (some "m2"))) (inbound "stop" noon) start in
    (suppressed_in after.1 "shop" "h1" ≡ true) × Returns (λ o. o.reason ≡ Reason.opt_out) after
unfolding receive resolve_contact get_or_create_contact save_contact get_or_create_conversation
    touch_conversation touch_inbound add_message mark_read detect_opt_out normalise_keyword_text
handle_inbound-opt_out_example =
    handle_inbound-opt_out shop bot (answering (ok (some "m2"))) (inbound "stop" noon) sender _
      "stop" start _ refl (record { bound = ground arith }) refl refl refl

handle_inbound-Texts_example :
    count is_text
      (handle_inbound shop bot (answering (ok (some "m2"))) (inbound "price" noon) start).1.outbox
    ≤ count is_text start.outbox + 1
handle_inbound-Texts_example =
    handle_inbound-Texts shop bot (answering (ok (some "m2"))) (inbound "price" noon) start

-- The same message from a paused contact.
abbrev paused_start : World
paused_start = record start {
  db = record start.db { contacts = record grace { bot_paused = true } ∷ [] };
}

handle_inbound-paused_example :
    let host = answering (ok (some "m2")) in
    let stored = (receive shop bot host (inbound "price" noon) paused_start).1 in
    let after = handle_inbound shop bot host (inbound "price" noon) paused_start in
    (after.1 ≡ stored)
    × (count is_text after.1.outbox ≤ count is_text paused_start.outbox)
    × Returns (λ o. (o.replied || o.escalated) ≡ false) after
unfolding receive resolve_contact get_or_create_contact save_contact get_or_create_conversation
    touch_conversation touch_inbound add_message mark_read detect_opt_out normalise_keyword_text
    is_paused search_phrase
handle_inbound-paused_example =
    handle_inbound-paused shop bot (answering (ok (some "m2"))) (inbound "price" noon) _ _ false
      paused_start _ refl refl refl refl

-- The API refuses the confirmation.
process_inbound_message_task-loses_opt_out_example :
    let refused : Error = Error.whatsapp_api (some 131_000) "refused" in
    let host = answering (err refused) in
    let after =
      process_inbound_message_task
        (handle_inbound shop bot host (inbound "stop" noon))
        (λ e. "error")
        "shop"
        "e1"
        none
        start in
    (after.0 ≡ err refused) × (after.1.db ≡ start.db)
unfolding receive resolve_contact get_or_create_contact save_contact get_or_create_conversation
    touch_conversation touch_inbound add_message mark_read detect_opt_out normalise_keyword_text
    service_window_open
process_inbound_message_task-loses_opt_out_example =
    process_inbound_message_task-loses_opt_out shop bot
      (answering (err (Error.whatsapp_api (some 131_000) "refused"))) (λ e. "error")
      (inbound "stop" noon) _ _ "stop" "+441" "e1" none
      (Error.whatsapp_api (some 131_000) "refused") start _ refl refl refl
      (record { bound = omega arith }) (record { bound = omega arith }) refl refl refl refl refl
