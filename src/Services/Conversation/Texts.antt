-- ===== src/Services/Conversation/Texts.antt =====
-- How many texts one inbound message is answered with.
use whatsapp_bot.Prelude.{
  ◌+◌, ◌≤◌, refl, String, Bool, Option, none, some, ◌==◌, nat_eq, count, is_blank, arith,
}
use whatsapp_bot.Domain.Enums.{intent_eq, ConversationState, conversation_state_eq}
use whatsapp_bot.Domain.Config.{BusinessConfig, BotConfig}
use whatsapp_bot.Domain.Models.{Contact, Conversation}
use whatsapp_bot.Domain.Schemas.{IntentResult, RetrievalResult, BotReply}
use whatsapp_bot.Store.Session.{World, pure, ◌>>=◌}
use whatsapp_bot.Store.Quiet.{Quiet, if-Quiet, if-Texts, Texts, is_text, Quiet-Texts, bind-Texts}
use whatsapp_bot.Repositories.Quiet.{is_paused-Quiet}
use whatsapp_bot.Services.Consent.{opt_out}
use whatsapp_bot.Repositories.Conversations.{save_conversation, record_analysis}
use whatsapp_bot.Services.Response.Sanitise.{strip}
use whatsapp_bot.Repositories.Consents.{is_paused}
use whatsapp_bot.Services.Quiet.{opt_out-Quiet}
use whatsapp_bot.Services.Conversation.Inbound.{
  InboundMessage, InboundHost, Reason, silent, lift, send_reply,
}
use whatsapp_bot.Services.Conversation.Handle.{
  receive, text_of, analyse_inbound, subscribe, escalate_if, try_send, respond, respond_to,
  retrieve, converse, converse_if, unless_paused, decide, unsubscribe, handle_inbound,
  unsupported_reply, is_unsupported, optout_reply,
}
use whatsapp_bot.Services.Conversation.Steps.{
  send_reply-Texts, receive-Texts, analyse_inbound-Quiet, subscribe-Quiet, escalate_if-Quiet,
  try_send-Texts,
}

module _ (business : BusinessConfig) (bot : BotConfig) (host : InboundHost) where
  respond-Texts :
      (reply : BotReply) (c : Contact) (conversation : Conversation) (w : World)
      → Texts 1 (respond business bot host reply c conversation) w
  unfolding respond
  respond-Texts reply c conversation w =
      bind-Texts 0 1 (escalate_if business bot host reply c conversation) _ w
        (Quiet-Texts 0 (escalate_if business bot host reply c conversation)
          (escalate_if-Quiet business bot host reply c conversation w))
        λ parties w1.
          bind-Texts 1 0 (try_send business bot host reply parties) _ w1
            (try_send-Texts business bot host reply parties w1) λ _ _. omega arith

  respond_to-Texts :
      (event : InboundMessage) (c : Contact) (conversation : Conversation)
      (retrieval : RetrievalResult) (analysed : IntentResult × Bool) (w : World)
      → Texts 1 (respond_to business bot host event c conversation retrieval analysed) w
  unfolding record_analysis save_conversation
  respond_to-Texts event c conversation retrieval (analysis, failed) w =
      bind-Texts 0 1 (subscribe business bot host event c analysis) _ _
        (Quiet-Texts 0 (subscribe business bot host event c analysis)
          (subscribe-Quiet business bot host event c analysis _))
        λ c' w1. respond-Texts _ c' _ w1

  retrieve-Quiet : (text : String) (w : World) → Quiet (retrieve business bot host text) w
  unfolding retrieve
  retrieve-Quiet text w =
      if-Quiet bot.features.knowledge_retrieval (lift (host.search text 4)) _ w refl refl

  converse-Texts :
      (event : InboundMessage) (c : Contact) (conversation : Conversation) (w : World)
      → Texts 1 (converse business bot host event c conversation) w
  unfolding converse
  converse-Texts event c conversation w =
      bind-Texts 0 1 (retrieve business bot host (text_of event)) _ w
        (Quiet-Texts 0 (retrieve business bot host (text_of event))
          (retrieve-Quiet (text_of event) w))
        λ retrieval w1.
          bind-Texts 0 1 (analyse_inbound business bot host event c conversation retrieval) _ w1
            (Quiet-Texts 0 (analyse_inbound business bot host event c conversation retrieval)
              (analyse_inbound-Quiet business bot host event c conversation retrieval w1))
            (respond_to-Texts event c conversation retrieval)

  converse_if-Texts :
      (event : InboundMessage) (c : Contact) (conversation : Conversation) (w : World)
      → Texts 1 (converse_if business bot host event c conversation) w
  unfolding converse_if
  converse_if-Texts event c conversation w =
      let sends =
        send_reply business bot host c conversation (unsupported_reply business bot host) in
      if-Texts 1 (is_unsupported business bot host event) (sends >>= λ _. pure _) _ w
        (bind-Texts 1 0 sends _ w
          (send_reply-Texts business bot host c conversation (unsupported_reply business bot host)
            w)
          λ _ _. omega arith)
        (if-Texts 1 (is_blank (strip host.text (text_of event)))
          (pure (silent Reason.empty_message)) (converse business bot host event c conversation) w
          (omega arith) (converse-Texts event c conversation w))

  unless_paused-Texts :
      (event : InboundMessage) (c : Contact) (conversation : Conversation) (paused : Bool)
      (w : World)
      → Texts 1 (unless_paused business bot host event c conversation paused) w
  unless_paused-Texts event c conversation paused w =
      if-Texts 1 paused (pure (silent Reason.bot_paused_global)) _ w (omega arith) (
        if-Texts 1 c.bot_paused (pure (silent Reason.bot_paused_contact)) _ w (omega arith) (
          if-Texts 1 (conversation.state == ConversationState.human_handling)
            (pure (silent Reason.human_handling))
            (converse_if business bot host event c conversation) w (omega arith)
            (converse_if-Texts event c conversation w)))

  unsubscribe-Texts :
      (event : InboundMessage) (c : Contact) (conversation : Conversation) (word : String)
      (w : World)
      → Texts 1 (unsubscribe business bot host event c conversation word) w
  unfolding unsubscribe
  unsubscribe-Texts event c conversation word w =
      bind-Texts 0 1 (opt_out c "whatsapp_message" _ "customer_opt_out" (some event.timestamp)) _ w
        (Quiet-Texts 0 (opt_out c "whatsapp_message" _ "customer_opt_out" (some event.timestamp))
          (opt_out-Quiet c _ _ _ _ w))
        λ c' w1.
          bind-Texts 1 0
            (send_reply business bot host c' conversation (optout_reply business bot host)) _ w1
            (send_reply-Texts business bot host c' conversation (optout_reply business bot host) w1)
            λ _ _. omega arith

  unstopped-Texts :
      (event : InboundMessage) (c : Contact) (conversation : Conversation) (w : World)
      → Texts 1
          (is_paused business.business_id >>= unless_paused business bot host event c conversation)
          w
  unstopped-Texts event c conversation w =
      bind-Texts 0 1 (is_paused business.business_id) _ w
        (Quiet-Texts 0 (is_paused business.business_id) (is_paused-Quiet business.business_id w))
        (unless_paused-Texts event c conversation)

  decide-Texts :
      (event : InboundMessage) (parties : Contact × Conversation) (word : Option String) (w : World)
      → Texts 1 (decide business bot host event parties word) w
  decide-Texts event (c, conversation) none w = unstopped-Texts event c conversation w
  decide-Texts event (c, conversation) (some String.[]) w = unstopped-Texts event c conversation w
  decide-Texts event (c, conversation) (some (String.◌∷◌ x xs)) w =
      unsubscribe-Texts event c conversation (String.◌∷◌ x xs) w

  -- Whatever the message, the tables and the answers of the model and of the API, the handler calls
  -- the API for one text at most, also where it raises.
  pub handle_inbound-Texts :
      (event : InboundMessage) (w : World)
      → count is_text (handle_inbound business bot host event w).1.outbox
        ≤ count is_text w.outbox + 1
  unfolding handle_inbound
  handle_inbound-Texts event w =
      bind-Texts 0 1 (receive business bot host event) _ w (receive-Texts business bot host event w)
        λ parties w1. decide-Texts event parties _ w1
