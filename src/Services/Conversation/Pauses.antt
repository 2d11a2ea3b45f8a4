-- ===== src/Services/Conversation/Pauses.antt =====
-- What the pause switches stop.
use whatsapp_bot.Prelude.{
  ◌≤◌, ◌≡◌, refl, Bool, true, false, ◌||◌, none, count, Bool-cases, inl, inr, arith, ◌==◌,
}
use whatsapp_bot.Domain.Enums.{ConversationState, conversation_state_eq}
use whatsapp_bot.Domain.Config.{BusinessConfig, BotConfig}
use whatsapp_bot.Domain.Models.{Contact, Conversation}
use whatsapp_bot.Domain.Rules.Keywords.{detect_opt_out}
use whatsapp_bot.Store.Session.{World, ok, Returns}
use whatsapp_bot.Store.Quiet.{is_text}
use whatsapp_bot.Repositories.Consents.{is_paused}
use whatsapp_bot.Services.Conversation.Inbound.{
  InboundMessage, InboundHost, Reason, ProcessingOutcome, silent,
}
use whatsapp_bot.Services.Conversation.Handle.{text_of, receive, unless_paused, handle_inbound}
use whatsapp_bot.Services.Conversation.Steps.{receive-Texts}

module _ (business : BusinessConfig) (bot : BotConfig) (host : InboundHost) where
  -- A pause ends the handler as it stands.
  stopped :
      (event : InboundMessage) (c : Contact) (conversation : Conversation) (paused : Bool)
      (w : World)
      → (paused || c.bot_paused || conversation.state == ConversationState.human_handling) ≡ true
      → (o : ProcessingOutcome) × (unless_paused business bot host event c conversation paused w
          ≡ (ok o, w))
        × (o.replied ≡ false)
        × (o.escalated ≡ false)
  stopped event c conversation true w h = (silent Reason.bot_paused_global, refl, refl, refl)
  stopped event c conversation false w h = elim (Bool-cases c.bot_paused) [
    | inl paused ↦ (silent Reason.bot_paused_contact, rw paused refl, refl, refl)
    | inr open_ ↦ elim (Bool-cases (conversation.state == ConversationState.human_handling)) [
      | inl human ↦ (silent Reason.human_handling, rw open_ (rw human refl), refl, refl)
      | inr bot_handles ↦ absurd cc
    ]
  ]

  -- Where the message is stored, is no opt-out, and the bot is paused, the contact is paused, or a
  -- human handles the conversation, the handler changes nothing after that: it sends no text, and
  -- its outcome is neither a reply nor an escalation.
  pub handle_inbound-paused :
      (event : InboundMessage) (c : Contact) (conversation : Conversation) (paused : Bool)
      (w w1 : World)
      → receive business bot host event w ≡ (ok (c, conversation), w1)
      → detect_opt_out host.unicode (text_of event) bot ≡ none
      → is_paused business.business_id w1 ≡ (ok paused, w1)
      → (paused || c.bot_paused || conversation.state == ConversationState.human_handling) ≡ true
      → let after = handle_inbound business bot host event w in
        (after.1 ≡ w1)
        × (count is_text after.1.outbox ≤ count is_text w.outbox)
        × Returns (λ o. (o.replied || o.escalated) ≡ false) after
  unfolding handle_inbound
  handle_inbound-paused event c conversation paused w w1 stored other read h =
      let (o, end, unreplied, unescalated) = stopped event c conversation paused w1 h in
      let few = rw stored at (receive-Texts business bot host event w) in
      rw (stored, other, read, end) (refl, omega (arith, few), ground arith)
