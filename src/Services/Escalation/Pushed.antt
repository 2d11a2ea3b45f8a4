-- ===== src/Services/Escalation/Pushed.antt =====
-- The push of the CRM's reference to a new escalation.
use whatsapp_bot.Prelude.{
  ◌≡◌, refl, String, true, Option, none, some, [], ◌∷◌, where_, ◌==◌, nat_eq, string_eq, arith,
}
use whatsapp_bot.Domain.Enums.{escalation_status_eq}
use whatsapp_bot.Domain.Config.{BusinessConfig}
use whatsapp_bot.Domain.Models.{Escalation}
use whatsapp_bot.Store.Rows.{put}
use whatsapp_bot.Store.Unique.{where_-put}
use whatsapp_bot.Store.Session.{World, Result, ok}
use whatsapp_bot.Repositories.Escalations.{is_open_in, save_escalation}
use whatsapp_bot.Services.Escalation.{EscalationHost, push_reference}
use whatsapp_bot.Services.Escalation.Rows.{IsEscalationTable, IsEscalationTable-put}

-- The push to the CRM keeps the row and the tables, whatever the CRM answers.
pub record IsPushed (e : Escalation) (w : World) (r : Result Escalation × World) : Type 0 where
  pub value : Escalation
  pub world : World
  pub returned : r ≡ (ok value, world)
  pub same_conversation : value.conversation_id ≡ e.conversation_id
  pub same_status : value.status ≡ e.status
  pub sole : where_ (is_open_in e.conversation_id) world.escalations ≡ value ∷ []
  pub contacts : world.contacts ≡ w.contacts
  pub conversations : world.conversations ≡ w.conversations
  pub table : IsEscalationTable world.escalations world.next_id

module _ (business : BusinessConfig) (host : EscalationHost) where
  unpushed :
      (e : Escalation) (w : World)
      → IsEscalationTable w.escalations w.next_id
      → where_ (is_open_in e.conversation_id) w.escalations ≡ e ∷ []
      → IsPushed e w (ok e, w)
  unpushed e w t sole = record {
    value = e;
    world = w;
    returned = refl;
    same_conversation = refl;
    same_status = refl;
    sole = sole;
    contacts = refl;
    conversations = refl;
    table = t;
  }

  pub push_reference-IsPushed :
      (e : Escalation) (answer : Option (Option String)) (w : World)
      → IsEscalationTable w.escalations w.next_id
      → where_ (λ r. r.id == e.id) w.escalations ≡ e ∷ []
      → where_ (is_open_in e.conversation_id) w.escalations ≡ e ∷ []
      → is_open_in e.conversation_id e ≡ true
      → IsPushed e w (push_reference business host e answer w)
  unfolding save_escalation
  push_reference-IsPushed e none w t found sole hit = unpushed e w t sole
  push_reference-IsPushed e (some none) w t found sole hit = unpushed e w t sole
  push_reference-IsPushed e (some (some String.[])) w t found sole hit = unpushed e w t sole
  push_reference-IsPushed e (some (some (String.◌∷◌ a s))) w t found sole hit =
      let row = record e { crm_reference = some (String.◌∷◌ a s) } in
      record {
        value = row;
        world = record w { db = record w.db { escalations = put (λ r. r.id) row w.escalations } };
        returned = refl;
        same_conversation = refl;
        same_status = refl;
        sole =
            where_-put (λ r. r.id) (is_open_in e.conversation_id) e row w.escalations sole
              (rw found (omega arith)) refl hit;
        contacts = refl;
        conversations = refl;
        table = IsEscalationTable-put w.escalations w.next_id e row t found refl (λ c. refl);
      }
