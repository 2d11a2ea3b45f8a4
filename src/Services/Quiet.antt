-- ===== src/Services/Quiet.antt =====
-- The services that handlers use between their sends call nothing of the WhatsApp client.
use whatsapp_bot.Prelude.{
  ℕ, refl, String, Bool, true, false, not, ◌&&◌, Option, none, some, ltb, Bool-cases, inl, inr,
}
use whatsapp_bot.Domain.Enums.{ConsentPurpose, EscalationReason}
use whatsapp_bot.Domain.Config.{BusinessConfig}
use whatsapp_bot.Domain.Models.{Contact, Conversation, Escalation}
use whatsapp_bot.Store.Session.{World}
use whatsapp_bot.Store.Quiet.{Quiet, bind-Quiet}
use whatsapp_bot.Repositories.Contacts.{
  save_contact, create_suppression, remove_suppression, set_bot_paused,
}
use whatsapp_bot.Repositories.Consents.{record_consent}
use whatsapp_bot.Repositories.Quiet.{create_suppression-Quiet, remove_suppression-Quiet}
use whatsapp_bot.Repositories.Conversations.{mark_escalated, save_conversation}
use whatsapp_bot.Repositories.Messages.{recent_history}
use whatsapp_bot.Repositories.Escalations.{
  get_open_for_conversation, NewEscalation, create_escalation, save_escalation,
}
use whatsapp_bot.Services.Consent.{opt_out, opt_in, or_now}
use whatsapp_bot.Services.Escalation.{
  EscalationHost, pause_if, push_reference, build_summary, open_escalation, escalate_found,
  escalate,
}

pub opt_out-Quiet :
    (c : Contact) (source : String) (evidence : Option String) (reason : String)
    (occurred_at : Option ℕ) (w : World)
    → Quiet (opt_out c source evidence reason occurred_at) w
unfolding opt_out save_contact record_consent
opt_out-Quiet c source evidence reason occurred_at w =
    bind-Quiet (create_suppression c.business_id c.phone_hash c.phone_masked reason evidence) _
      (create_suppression-Quiet c.business_id c.phone_hash c.phone_masked reason evidence _)
      λ _ _. refl

pub opt_in-Quiet :
    (c : Contact) (source : String) (purpose : ConsentPurpose) (evidence : Option String)
    (occurred_at : Option ℕ) (w : World)
    → Quiet (opt_in c source purpose evidence occurred_at) w
unfolding opt_in save_contact record_consent
opt_in-Quiet c source purpose evidence occurred_at w =
    elim (Bool-cases (ltb w.now (or_now occurred_at w.now))) [
      | inl late ↦ rw late refl
      | inr past ↦ rw past (
          bind-Quiet (remove_suppression c.business_id c.phone_hash) _
            (remove_suppression-Quiet c.business_id c.phone_hash _) λ _ _. refl)
    ]

module _ (business : BusinessConfig) (host : EscalationHost) where
  pause_if-Quiet :
      (pause : Bool) (c : Contact) (e : Escalation) (w : World)
      → Quiet (pause_if business host pause c e) w
  unfolding set_bot_paused save_contact
  pause_if-Quiet true c e w = refl
  pause_if-Quiet false c e w = refl

  push_reference-Quiet :
      (e : Escalation) (answer : Option (Option String)) (w : World)
      → Quiet (push_reference business host e answer) w
  unfolding save_escalation
  push_reference-Quiet e none w = refl
  push_reference-Quiet e (some none) w = refl
  push_reference-Quiet e (some (some String.[])) w = refl
  push_reference-Quiet e (some (some (String.◌∷◌ c s))) w = refl

  create_escalation-Quiet : (n : NewEscalation) (w : World) → Quiet (create_escalation n) w
  unfolding create_escalation
  create_escalation-Quiet n w = refl

  open_escalation-Quiet :
      (conversation : Conversation) (c : Contact) (reason : EscalationReason)
      (confidence : Option ℕ) (pause_bot : Bool) (w : World)
      → Quiet (open_escalation business host conversation c reason confidence pause_bot) w
  unfolding open_escalation build_summary recent_history mark_escalated save_conversation
  open_escalation-Quiet conversation c reason confidence pause_bot w =
      bind-Quiet (create_escalation _) _ (create_escalation-Quiet _ _) λ created w1.
        bind-Quiet (pause_if business host pause_bot c created) _
          (pause_if-Quiet pause_bot c created _)
          λ c' w2.
            bind-Quiet (push_reference business host created _) _
              (push_reference-Quiet created _ w2) λ _ _. refl

  escalate_found-Quiet :
      (conversation : Conversation) (c : Contact) (reason : EscalationReason)
      (confidence : Option ℕ) (pause_bot : Bool) (found : Option Escalation) (w : World)
      → Quiet (escalate_found business host conversation c reason confidence pause_bot found) w
  escalate_found-Quiet conversation c reason confidence pause_bot none w =
      open_escalation-Quiet conversation c reason confidence pause_bot w
  escalate_found-Quiet conversation c reason confidence pause_bot (some e) w =
      bind-Quiet (pause_if business host (pause_bot && not c.bot_paused) c e) _
        (pause_if-Quiet (pause_bot && not c.bot_paused) c e w) λ _ _. refl

  pub escalate-Quiet :
      (conversation : Conversation) (c : Contact) (reason : EscalationReason)
      (confidence : Option ℕ) (pause_bot : Bool) (w : World)
      → Quiet (escalate business host conversation c reason confidence pause_bot) w
  unfolding escalate get_open_for_conversation
  escalate-Quiet conversation c reason confidence pause_bot w =
      escalate_found-Quiet conversation c reason confidence pause_bot _ w
