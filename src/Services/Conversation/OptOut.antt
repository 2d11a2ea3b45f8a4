-- ===== src/Services/Conversation/OptOut.antt =====
-- What an opt-out word in an inbound message does.
use whatsapp_bot.Prelude.{
  and-true, any, ◌≡◌, refl, subst, ◌∙◌, ap, String, true, false, Option, none, some, [], ◌∷◌, ◌||◌,
  Bool-cases, inl, inr, is_blank, usable, joined, lstrip_plus, string_eq,
}
use whatsapp_bot.Domain.Config.{BusinessConfig, BotConfig}
use whatsapp_bot.Domain.Models.{Contact, Conversation}
use whatsapp_bot.Domain.Phone.{NormalisedPhone}
use whatsapp_bot.Domain.Schemas.{BotReply}
use whatsapp_bot.Domain.Rules.Keywords.{detect_opt_out}
use whatsapp_bot.Domain.Rules.Schedule.{service_window_open}
use whatsapp_bot.Store.Session.{
  World, Result-cases, Outgoing, pure, ok, err, Error, Returns, Returns-bind,
}
use whatsapp_bot.Repositories.Contacts.{
  has_hash, suppressed_in, suppresses, touch_outbound, save_contact,
}
use whatsapp_bot.Repositories.Messages.{add_message}
use whatsapp_bot.Services.Consent.{opt_out}
use whatsapp_bot.Services.Consent.Transitions.{IsListedOnce, opt_out_effect, opt_out-run}
use whatsapp_bot.Repositories.Consents.{record_consent}
use whatsapp_bot.Services.Response.Fragments.{optout_confirmation}
use whatsapp_bot.Services.Conversation.Inbound.{
  InboundMessage, InboundHost, Reason, send_text, store_reply, deliver, deliver_to, send_reply,
  reply_message,
}
use whatsapp_bot.Services.Conversation.Handle.{
  text_of, receive, optout_reply, opted_out_outcome, unsubscribe, handle_inbound,
}
use whatsapp_bot.Services.Conversation.Receipt.{
  Keeps, bind-Keeps, add_message-Keeps, receive-Keeps, receive-IsOf,
}

module _ (business : BusinessConfig) (bot : BotConfig) (host : InboundHost) where
  deliver-Keeps :
      (c : Contact) (conversation : Conversation) (reply : BotReply) (phone : String) (w : World)
      → Keeps (deliver business bot host c conversation reply phone) w
  unfolding deliver send_text store_reply touch_outbound save_contact
  deliver-Keeps c conversation reply phone w =
      bind-Keeps (send_text business bot host (Outgoing.send_text (lstrip_plus phone) reply.text))
        (store_reply business bot host c conversation reply) refl
        λ id w1.
          let row = reply_message business bot host c conversation reply id w1.correlation_id in
          bind-Keeps (add_message row) _ (add_message-Keeps row w1) λ _ _. refl

  send_reply-Keeps :
      (c : Contact) (conversation : Conversation) (reply : BotReply) (w : World)
      → Keeps (send_reply business bot host c conversation reply) w
  unfolding send_reply
  send_reply-Keeps c conversation reply w =
      elim (Bool-cases (reply.suppress_send || is_blank reply.text)) [
        | inl nothing ↦ rw nothing refl
        | inr says ↦ elim (Bool-cases (service_window_open c.last_inbound_at w.now)) [
          | inr late ↦ rw says (rw late refl)
          | inl in_time ↦ rw says (rw in_time (delivered (usable (host.decrypt c.phone_encrypted))))
        ]
      ]
    where
      delivered :
          (phone : Option String)
          → Keeps (deliver_to business bot host c conversation reply phone) w
      delivered none = refl
      delivered (some phone) = deliver-Keeps c conversation reply phone w

  own_key :
      (phone : NormalisedPhone) (c : Contact)
      → has_hash business.business_id phone.hash c ≡ true
      → (c.business_id ≡ business.business_id) × (c.phone_hash ≡ phone.hash)
  own_key phone c own =
      let both = and-true _ _ own in
      ((string_eq.beq_iff _ _).0 both.0, (string_eq.beq_iff _ _).0 both.1)

  unsubscribe-suppresses :
      (event : InboundMessage) (c : Contact) (conversation : Conversation) (word : String)
      (w : World)
      → IsListedOnce w.suppressions c.business_id c.phone_hash
      → let after = unsubscribe business bot host event c conversation word w in
        (suppressed_in after.1 c.business_id c.phone_hash ≡ true)
        × Returns (λ o. o.reason ≡ Reason.opt_out) after
  unfolding unsubscribe
  unsubscribe-suppresses event c conversation word w once =
      let evidence = some (joined ("Customer sent stop word: " ∷ word ∷ [])) in
      let effect =
        opt_out_effect c "whatsapp_message" evidence (some event.timestamp) w once
          "customer_opt_out" in
      let opting =
        opt_out c "whatsapp_message" evidence "customer_opt_out" (some event.timestamp) in
      elim (Result-cases (opting w)) [
        | inr (e, w1, failed) ↦ let wrong = rw failed at effect.0 in absurd cc
        | inl (c', w1, done) ↦
            let listed = rw done at effect.1 in
            let sends =
              send_reply business bot host c' conversation (optout_reply business bot host) in
            rw done (
              ap (λ tables. any (suppresses c.business_id c.phone_hash) tables.0)
                    (bind-Keeps sends (λ _. pure (opted_out_outcome business bot host))
                      (send_reply-Keeps c' conversation (optout_reply business bot host) w1)
                      λ _ _. refl)
                  ∙ listed,
              Returns-bind (λ o. o.reason ≡ Reason.opt_out) sends _ w1 λ _ _. refl,
            )
      ]

  abbrev pub confirmation_call : String → Outgoing
  confirmation_call phone =
      Outgoing.send_text (lstrip_plus phone) (optout_confirmation host.text business bot)

  -- Where the confirmation is tried and the API refuses it, the step raises the API's exception.
  pub unsubscribe-raises :
      (event : InboundMessage) (c : Contact) (conversation : Conversation) (word phone : String)
      (e : Error) (w : World)
      → IsListedOnce w.suppressions c.business_id c.phone_hash
      → is_blank (optout_confirmation host.text business bot) ≡ false
      → service_window_open c.last_inbound_at w.now ≡ true
      → usable (host.decrypt c.phone_encrypted) ≡ some phone
      → host.sent_id w.outbox (confirmation_call phone) ≡ err e
      → let after = unsubscribe business bot host event c conversation word w in
        (after.0 ≡ err e) × (after.1.webhook_events ≡ w.webhook_events)
  unfolding unsubscribe send_reply deliver send_text record_consent save_contact
  unsubscribe-raises event c conversation word phone e w once says in_time readable refused =
      let evidence = some (joined ("Customer sent stop word: " ∷ word ∷ [])) in
      let (rows, n, done, listed) =
        opt_out-run c "whatsapp_message" evidence (some event.timestamp) w once
          "customer_opt_out" in
      rw (done, says, in_time, readable, refused) (refl, refl)

  -- Where the sender's number is valid, its phone is listed once at most, the message is stored and
  -- holds a stop word, the phone is on the suppression list when the handler ends, whatever the
  -- answers of the model and of the API, also where the confirmation raises; and if the handler
  -- returns, its outcome is the opt-out.
  pub handle_inbound-opt_out :
      (event : InboundMessage) (phone : NormalisedPhone) (parties : Contact × Conversation)
      (word : String) (w w1 : World)
      → host.normalise_phone event.wa_id ≡ some phone
      → IsListedOnce w.suppressions business.business_id phone.hash
      → receive business bot host event w ≡ (ok parties, w1)
      → detect_opt_out host.unicode (text_of event) bot ≡ some word
      → is_blank word ≡ false
      → let after = handle_inbound business bot host event w in
        (suppressed_in after.1 business.business_id phone.hash ≡ true)
        × Returns (λ o. o.reason ≡ Reason.opt_out) after
  unfolding handle_inbound
  handle_inbound-opt_out event phone (c, conversation) String.[] w w1 valid once stored found said =
      absurd cc
  handle_inbound-opt_out event phone (c, conversation) (String.◌∷◌ x xs) w w1 valid once stored
        found said =
      let own = rw stored at (receive-IsOf business bot host phone event w valid) in
      let same = ap (λ tables. tables.0) (rw stored at (receive-Keeps business bot host event w)) in
      let (of_business, of_hash) = own_key phone c own in
      let result =
        unsubscribe-suppresses event c conversation (String.◌∷◌ x xs) w1
          (rw (of_business, of_hash, same) once) in
      let rows =
        (unsubscribe business bot host event c conversation (String.◌∷◌ x xs) w1).1.suppressions in
      rw (stored, found)
        (
          subst (λ b. any (suppresses b phone.hash) rows ≡ true) of_business
              (subst (λ h. any (suppresses c.business_id h) rows ≡ true) of_hash result.0),
          result.1,
        )
