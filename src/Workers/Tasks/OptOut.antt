-- ===== src/Workers/Tasks/OptOut.antt =====
-- The inbound task around the handler of a message that holds a stop word.
use whatsapp_bot.Prelude.{◌≡◌, ap, ◌∙◌, arith, String, true, false, Option, some, usable, is_blank}
use whatsapp_bot.Domain.Config.{BusinessConfig, BotConfig}
use whatsapp_bot.Domain.Models.{Contact, Conversation}
use whatsapp_bot.Domain.Rules.Keywords.{detect_opt_out}
use whatsapp_bot.Domain.Rules.Schedule.{service_window_open}
use whatsapp_bot.Store.Unique.{AtMostOne}
use whatsapp_bot.Store.Session.{World, Error, ok, err}
use whatsapp_bot.Repositories.Webhooks.{has_key}
use whatsapp_bot.Services.Consent.Transitions.{IsListedOnce}
use whatsapp_bot.Services.Response.Fragments.{optout_confirmation}
use whatsapp_bot.Services.Conversation.Inbound.{InboundMessage, InboundHost, is_send_error}
use whatsapp_bot.Services.Conversation.Handle.{text_of, receive, unsubscribe, handle_inbound}
use whatsapp_bot.Services.Conversation.Receipt.{receive-Keeps}
use whatsapp_bot.Services.Conversation.OptOut.{confirmation_call, unsubscribe-raises}
use whatsapp_bot.Workers.Tasks.{process_inbound_message_task}
use whatsapp_bot.Workers.Tasks.Ledger.{escaping, process_inbound_message_task-raises}

-- The API's own exceptions leave the session as it is.
escaping-is_send_error : (e : Error) → is_send_error e ≡ true → escaping e ≡ e
escaping-is_send_error e h = ground arith

module _ (business : BusinessConfig) (bot : BotConfig) (host : InboundHost)
    (message : Error → String) where
  -- Where a message with a stop word is stored, its confirmation is tried (the window is open, the
  -- phone readable, the text not empty) and the client raises for it an exception of the API or of
  -- the open breaker, and the phone and the event are listed once at most, the task raises that
  -- exception and every table is as before the task: neither the suppression nor the consent record
  -- nor the message is kept.
  pub process_inbound_message_task-loses_opt_out :
      (event : InboundMessage) (c : Contact) (conversation : Conversation) (word phone key : String)
      (correlation : Option String) (e : Error) (w w1 : World)
      → receive business bot host event (record w { correlation_id = correlation })
        ≡ (ok (c, conversation), w1)
      → detect_opt_out host.unicode (text_of event) bot ≡ some word
      → is_blank word ≡ false
      → IsListedOnce w1.suppressions c.business_id c.phone_hash
      → AtMostOne (has_key business.business_id key) w.webhook_events
      → is_blank (optout_confirmation host.text business bot) ≡ false
      → service_window_open c.last_inbound_at w1.now ≡ true
      → usable (host.decrypt c.phone_encrypted) ≡ some phone
      → host.sent_id w1.outbox (confirmation_call business bot host phone) ≡ err e
      → is_send_error e ≡ true
      → let after =
          process_inbound_message_task
            (handle_inbound business bot host event)
            message
            business.business_id
            key
            correlation
            w in
        (after.0 ≡ err e) × (after.1.db ≡ w.db)
  unfolding handle_inbound
  process_inbound_message_task-loses_opt_out event c conversation String.[] phone key correlation e
        w w1 stored found said once single says in_time readable refused by_api =
      absurd cc
  process_inbound_message_task-loses_opt_out event c conversation (String.◌∷◌ x xs) phone key
        correlation e w w1 stored found said once single says in_time readable refused by_api =
      let start = record w { correlation_id = correlation } in
      let (raised, ledger) =
        unsubscribe-raises business bot host event c conversation (String.◌∷◌ x xs) phone e w1 once
          says in_time readable refused in
      let end = (unsubscribe business bot host event c conversation (String.◌∷◌ x xs) w1).1 in
      let ledger1 =
        ap (λ tables. tables.1) (rw stored at (receive-Keeps business bot host event start)) in
      let (failed, kept) =
        process_inbound_message_task-raises (handle_inbound business bot host event) message
          business.business_id key correlation w {w' = end} {e = e}
          (rw (stored, found) (ap (λ r. (r, end)) raised)) (rw (ledger, ledger1) single) in
      (failed ∙ ap err (escaping-is_send_error e by_api), kept)
