-- ===== src/Services/Conversation/Steps.antt =====
-- How many texts each step of the handler of an inbound message sends.
use whatsapp_bot.Prelude.{
  refl, ◌∙◌, String, Bool, true, false, not, ◌&&◌, ◌||◌, Option, none, some, [], ◌∷◌, ◌==◌, nat_eq,
  is_some, count-append, usable, is_blank, lstrip_plus, or_text, Bool-cases, inl, inr, arith,
}
use whatsapp_bot.Domain.Enums.{Intent, intent_eq, conversation_state_eq}
use whatsapp_bot.Domain.Config.{BusinessConfig, BotConfig}
use whatsapp_bot.Domain.Models.{Contact, Conversation}
use whatsapp_bot.Domain.Phone.{NormalisedPhone}
use whatsapp_bot.Domain.Schemas.{IntentResult, RetrievalResult, BotReply}
use whatsapp_bot.Domain.Rules.Schedule.{service_window_open}
use whatsapp_bot.Store.Session.{World, Outgoing, Result, ok, err, pure, raise, ◌>>=◌}
use whatsapp_bot.Store.Quiet.{
  Quiet, bind-Quiet, if-Quiet, if-Texts, outbox-attempt, Texts, is_text, Quiet-Texts, bind-Texts,
  attempt-Texts,
}
use whatsapp_bot.Repositories.Contacts.{
  get_or_create_contact, touch_inbound, touch_outbound, save_contact,
}
use whatsapp_bot.Repositories.Messages.{add_message, recent_history}
use whatsapp_bot.Repositories.Quiet.{
  get_or_create_contact-Quiet, add_message-Quiet, get_or_create_conversation-Quiet,
}
use whatsapp_bot.Services.Escalation.{escalate}
use whatsapp_bot.Services.Intent.{
  DeterministicOutcome, analyse, analyse_open, classify_deterministic, injected,
}
use whatsapp_bot.Services.Consent.{opt_in}
use whatsapp_bot.Repositories.Conversations.{
  get_or_create_conversation, touch_conversation, save_conversation,
}
use whatsapp_bot.Services.Quiet.{opt_in-Quiet, escalate-Quiet}
use whatsapp_bot.Services.Conversation.Inbound.{
  InboundMessage, InboundHost, lift, is_send_error, is_model_error, no_analysis, or_reason,
  with_profile_name, contact_for, resolve_contact, history, send_text, deliver, deliver_to,
  send_reply, store_reply, reply_message,
}
use whatsapp_bot.Services.Conversation.Handle.{
  mark_read, inbound_message, file_message, open_for, receive, text_of, or_failed, ask_model,
  analyse_inbound, subscribe, escalate_if, try_send,
}

module _ (business : BusinessConfig) (bot : BotConfig) (host : InboundHost) where
  send_text-Texts :
      (to body : String) (w : World)
      → Texts 1 (send_text business bot host (Outgoing.send_text to body)) w
  unfolding send_text
  send_text-Texts to body w =
      let more = count-append is_text w.outbox (Outgoing.send_text to body ∷ []) in
      omega (arith, more)

  store_reply-Quiet :
      (c : Contact) (conversation : Conversation) (reply : BotReply) (id : Option String)
      (w : World)
      → Quiet (store_reply business bot host c conversation reply id) w
  unfolding store_reply touch_outbound save_contact
  store_reply-Quiet c conversation reply id w =
      let row = reply_message business bot host c conversation reply id w.correlation_id in
      bind-Quiet (add_message row) _ (add_message-Quiet row w) λ _ _. refl

  deliver-Texts :
      (c : Contact) (conversation : Conversation) (reply : BotReply) (phone : String) (w : World)
      → Texts 1 (deliver business bot host c conversation reply phone) w
  unfolding deliver
  deliver-Texts c conversation reply phone w =
      bind-Texts 1 0
        (send_text business bot host (Outgoing.send_text (lstrip_plus phone) reply.text))
        (store_reply business bot host c conversation reply) w (send_text-Texts _ _ w)
        λ id w1.
          Quiet-Texts 0 (store_reply business bot host c conversation reply id)
            (store_reply-Quiet c conversation reply id w1)

  deliver_to-Texts :
      (c : Contact) (conversation : Conversation) (reply : BotReply) (phone : Option String)
      (w : World)
      → Texts 1 (deliver_to business bot host c conversation reply phone) w
  deliver_to-Texts c conversation reply none w = omega arith
  deliver_to-Texts c conversation reply (some phone) w = deliver-Texts c conversation reply phone w

  pub send_reply-Texts :
      (c : Contact) (conversation : Conversation) (reply : BotReply) (w : World)
      → Texts 1 (send_reply business bot host c conversation reply) w
  unfolding send_reply
  send_reply-Texts c conversation reply w =
      if-Texts 1 (reply.suppress_send || is_blank reply.text) (pure none) _ w (omega arith) (
        if-Texts 1 (not (service_window_open c.last_inbound_at w.now)) (pure none)
          (deliver_to business bot host c conversation reply
            (usable (host.decrypt c.phone_encrypted)))
          w (omega arith)
          (deliver_to-Texts c conversation reply (usable (host.decrypt c.phone_encrypted)) w))

  with_profile_name-Quiet :
      (event : InboundMessage) (found : Contact × Bool) (w : World)
      → Quiet (with_profile_name business bot host event found) w
  unfolding save_contact
  with_profile_name-Quiet event (c, created) w =
      if-Quiet
        (not created
          && not (is_blank (or_text event.profile_name ""))
          && is_blank (or_text c.first_name ""))
        (save_contact (record c { first_name = event.profile_name })) (pure c) w refl refl

  contact_for-Quiet :
      (event : InboundMessage) (phone : Option NormalisedPhone) (w : World)
      → Quiet (contact_for business bot host event phone) w
  contact_for-Quiet event none w = refl
  contact_for-Quiet event (some phone) w =
      bind-Quiet
        (get_or_create_contact business.business_id phone.hash (host.encrypt phone.e164)
          phone.masked event.profile_name business.default_language)
        (with_profile_name business bot host event)
        (get_or_create_contact-Quiet business.business_id phone.hash (host.encrypt phone.e164)
          phone.masked event.profile_name business.default_language w)
        (with_profile_name-Quiet event)

  mark_read-Texts :
      (event : InboundMessage) (w : World) → Texts 0 (mark_read business bot host event) w
  unfolding mark_read
  mark_read-Texts event w =
      let more = count-append is_text w.outbox (Outgoing.mark_as_read event.meta_message_id ∷ []) in
      elim (Bool-cases (bot.features.auto_mark_read && not (is_blank event.meta_message_id))) [
        | inl marks ↦ rw marks (omega (arith, more))
        | inr skips ↦ rw skips (omega arith)
      ]

  file_message-Texts :
      (event : InboundMessage) (c : Contact) (conversation : Conversation) (w : World)
      → Texts 0 (file_message business bot host event c conversation) w
  unfolding file_message
  file_message-Texts event c conversation w =
      let row = inbound_message business bot host event c conversation w.correlation_id in
      bind-Texts 0 0 (add_message row) _ w
        (Quiet-Texts 0 (add_message row) (add_message-Quiet row w))
        λ _ w1.
          bind-Texts 0 0 (mark_read business bot host event) _ w1 (mark_read-Texts event w1)
            λ _ _. omega arith

  open_for-Texts :
      (event : InboundMessage) (c : Contact) (w : World)
      → Texts 0 (open_for business bot host event c) w
  unfolding open_for touch_conversation touch_inbound save_contact save_conversation
  open_for-Texts event c w =
      bind-Texts 0 0
        (get_or_create_conversation business.business_id c.id bot.conversation_expiry_hours) _ w
        (Quiet-Texts 0
          (get_or_create_conversation business.business_id c.id bot.conversation_expiry_hours)
          (get_or_create_conversation-Quiet business.business_id c.id bot.conversation_expiry_hours
            w))
        λ conversation w1. file_message-Texts event _ _ _

  pub receive-Texts :
      (event : InboundMessage) (w : World) → Texts 0 (receive business bot host event) w
  unfolding receive resolve_contact
  receive-Texts event w =
      let phone = host.normalise_phone event.wa_id in
      bind-Texts 0 0 (contact_for business bot host event phone) (open_for business bot host event)
        w
        (Quiet-Texts 0 (contact_for business bot host event phone)
          (contact_for-Quiet event phone w))
        λ c w1. open_for-Texts event c w1

  history-Quiet :
      (conversation : Conversation) (w : World) → Quiet (history business bot host conversation) w
  unfolding history recent_history
  history-Quiet conversation w = elim (Bool-cases (bot.history_limit == 0)) [
    | inl never ↦ rw never refl
    | inr some_turns ↦ rw some_turns refl
  ]

  analyse_open-Quiet :
      (injection : Bool) (answered : Result IntentResult) (retrieval : RetrievalResult)
      (found : Option DeterministicOutcome) (w : World)
      → Quiet (analyse_open host.unicode bot injection (lift answered) retrieval found) w
  analyse_open-Quiet injection answered retrieval (some d) w = refl
  analyse_open-Quiet injection (ok r) retrieval none w =
      if-Quiet injection (pure (injected host.unicode bot)) _ w refl refl
  analyse_open-Quiet injection (err e) retrieval none w =
      if-Quiet injection (pure (injected host.unicode bot)) _ w refl refl

  ask_model-Quiet :
      (event : InboundMessage) (c : Contact) (conversation : Conversation)
      (retrieval : RetrievalResult) (w : World)
      → Quiet (ask_model business bot host event c conversation retrieval) w
  unfolding ask_model analyse
  ask_model-Quiet event c conversation retrieval w =
      bind-Quiet (history business bot host conversation) _ (history-Quiet conversation w)
        λ turns w1.
          let open_ =
            analyse_open host.unicode bot (host.injection (text_of event))
              (lift (host.model (text_of event) retrieval turns c.locale)) retrieval
              (classify_deterministic host.unicode bot (text_of event)) in
          bind-Quiet open_ _ (analyse_open-Quiet _ _ retrieval _ w1) λ _ _. refl

  pub analyse_inbound-Quiet :
      (event : InboundMessage) (c : Contact) (conversation : Conversation)
      (retrieval : RetrievalResult) (w : World)
      → Quiet (analyse_inbound business bot host event c conversation retrieval) w
  unfolding analyse_inbound
  analyse_inbound-Quiet event c conversation retrieval w =
      outbox-attempt (ask_model business bot host event c conversation retrieval) or_failed w
        (λ e w'. if-Quiet (is_model_error e) (pure (no_analysis, true)) (raise e) w' refl refl)
      ∙ ask_model-Quiet event c conversation retrieval w

  pub subscribe-Quiet :
      (event : InboundMessage) (c : Contact) (analysis : IntentResult) (w : World)
      → Quiet (subscribe business bot host event c analysis) w
  unfolding subscribe
  subscribe-Quiet event c analysis w =
      if-Quiet (analysis.intent == Intent.opt_in) (opt_in c _ _ _ _) (pure c) w
        (opt_in-Quiet c _ _ _ _ w) refl

  pub escalate_if-Quiet :
      (reply : BotReply) (c : Contact) (conversation : Conversation) (w : World)
      → Quiet (escalate_if business bot host reply c conversation) w
  unfolding escalate_if
  escalate_if-Quiet reply c conversation w =
      let handed =
        escalate business host.escalation conversation c (or_reason reply.escalation_reason)
          (some reply.confidence) reply.pause_bot in
      if-Quiet reply.escalate (handed >>= λ e. pure (e.contact, e.conversation))
        (pure (c, conversation)) w
        (bind-Quiet handed _ (escalate-Quiet business host.escalation conversation c _ _ _ w)
          λ _ _. refl)
        refl

  pub try_send-Texts :
      (reply : BotReply) (parties : Contact × Conversation) (w : World)
      → Texts 1 (try_send business bot host reply parties) w
  unfolding try_send
  try_send-Texts reply (c, conversation) w =
      let sends = send_reply business bot host c conversation reply in
      attempt-Texts 1 (sends >>= λ id. pure (is_some id)) _ w
        (bind-Texts 1 0 sends _ w (send_reply-Texts c conversation reply w) λ _ _. omega arith)
        λ e w'. if-Quiet (is_send_error e) (pure false) (raise e) w' refl refl
