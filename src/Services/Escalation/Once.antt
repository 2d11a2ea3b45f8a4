-- ===== src/Services/Escalation/Once.antt =====
-- An escalation leaves one open row for its conversation, and returns the rows as they are stored.
use whatsapp_bot.Prelude.{
  any, sym, ℕ, ◌≡◌, refl, ◌∙◌, String, Bool, true, false, Option, some, [], ◌∷◌, ◌&&◌, ◌||◌, not,
  where_, ◌==◌, nat_eq, string_eq, Bool-cases, Option-cases, inl, inr, arith,
}
use whatsapp_bot.Domain.Enums.{EscalationReason, EscalationStatus, escalation_status_eq}
use whatsapp_bot.Domain.Config.{BusinessConfig}
use whatsapp_bot.Domain.Models.{Contact, Conversation, Escalation}
use whatsapp_bot.Store.Rows.{find_last, where_-head, any_of_where_, any_of_where_-nil}
use whatsapp_bot.Store.Session.{World, Result, ok, pure, bind-ok, ◌>>=◌}
use whatsapp_bot.Repositories.Contacts.{set_bot_paused, save_contact}
use whatsapp_bot.Repositories.Conversations.{mark_escalated, save_conversation}
use whatsapp_bot.Repositories.Messages.{recent_history}
use whatsapp_bot.Repositories.Escalations.{
  is_open_in, create_escalation, get_open_for_conversation, escalation_row,
}
use whatsapp_bot.Services.Escalation.{
  EscalationHost, Escalated, build_summary, push_reference, open_escalation, escalate_found,
  escalate, pause_reason, draft,
}
use whatsapp_bot.Services.Escalation.Rows.{
  new_row, new_open, IsEscalationTable, IsEscalationTable-append, IsContactRow, IsConversationRow,
  IsContactRow-put, IsConversationRow-put, find_last-none, find_last-sole,
}
use whatsapp_bot.Services.Escalation.Pushed.{push_reference-IsPushed}

-- What an escalation of a conversation with a contact leaves behind.
pub record IsEscalated (conversation : Conversation) (contact : Contact) (paused : Bool) (w : World)
    (r : Result Escalated × World) : Type 0 where
  pub value : Escalated
  pub world : World
  pub returned : r ≡ (ok value, world)
  -- The escalation that is returned is unresolved, of the conversation, and the only such row.
  pub same_conversation : value.escalation.conversation_id ≡ conversation.id
  pub unresolved : (value.escalation.status == EscalationStatus.resolved) ≡ false
  pub sole : where_ (is_open_in conversation.id) world.escalations ≡ value.escalation ∷ []
  -- The contact's row is what is returned, and paused as asked for.
  pub contact_stored : IsContactRow value.contact world
  pub same_contact : value.contact.id ≡ contact.id
  pub contact_paused : value.contact.bot_paused ≡ paused
  -- The conversation's row is what is returned, and escalated where no escalation was open.
  pub conversation_stored : IsConversationRow value.conversation world
  pub same_id : value.conversation.id ≡ conversation.id
  pub handed_over :
      value.conversation.escalated
      ≡ (conversation.escalated || not (any (is_open_in conversation.id) w.escalations))
  pub table : IsEscalationTable world.escalations world.next_id

module _ (business : BusinessConfig) (host : EscalationHost) (conversation : Conversation)
    (contact : Contact) where
  -- The part of a new escalation after its row is stored, in the world `w'`.
  push_new :
      (w w' : World) (conversation' : Conversation) (contact' : Contact) (paused : Bool)
      (e : Escalation) (answer : Option (Option String))
      → IsEscalationTable w'.escalations w'.next_id
      → where_ (λ r. r.id == e.id) w'.escalations ≡ e ∷ []
      → where_ (is_open_in e.conversation_id) w'.escalations ≡ e ∷ []
      → e.conversation_id ≡ conversation.id
      → e.status ≡ EscalationStatus.opened
      → IsContactRow contact' w'
      → contact'.id ≡ contact.id
      → contact'.bot_paused ≡ paused
      → IsConversationRow conversation' w'
      → conversation'.id ≡ conversation.id
      → conversation'.escalated ≡ true
      → any (is_open_in conversation.id) w.escalations ≡ false
      → IsEscalated conversation contact paused w (
          (push_reference business host e answer >>= λ pushed.
          pure (record { escalation = pushed; conversation = conversation'; contact = contact' }))
            w')
  push_new w w' conversation' contact' paused e answer t found sole here opened stored same_contact
        p kept same_id flagged none_open =
      let pushed =
        push_reference-IsPushed business host e answer w' t found sole (ground (arith, opened)) in
      record {
        value = record {
          escalation = pushed.value;
          conversation = conversation';
          contact = contact';
        };
        world = pushed.world;
        returned =
            bind-ok (push_reference business host e answer)
              (λ x.
                pure (record { escalation = x; conversation = conversation'; contact = contact' }))
              pushed.returned;
        same_conversation = pushed.same_conversation ∙ here;
        unresolved = rw (pushed.same_status, opened) refl;
        sole = rw (sym here) pushed.sole;
        contact_stored = rw pushed.contacts stored;
        same_contact = same_contact;
        contact_paused = p;
        conversation_stored = rw pushed.conversations kept;
        same_id = same_id;
        handed_over = ground (arith, flagged, none_open);
        table = pushed.table;
      }

  reuse :
      (e : Escalation) (pause_bot : Bool) (w : World)
      → IsEscalationTable w.escalations w.next_id
      → where_ (is_open_in conversation.id) w.escalations ≡ e ∷ []
      → IsContactRow contact w
      → IsConversationRow conversation w
      → (reason : EscalationReason) → (confidence : Option ℕ)
      → IsEscalated conversation contact
          (contact.bot_paused || pause_bot)
          w
          (escalate_found business host conversation contact reason confidence pause_bot (some e) w)
  unfolding set_bot_paused save_contact
  reuse e pause_bot w t sole stored kept reason confidence =
      let hit = where_-head (is_open_in conversation.id) w.escalations sole in
      let open_before = any_of_where_ (is_open_in conversation.id) w.escalations sole in
      let here = (nat_eq.beq_iff e.conversation_id conversation.id).0 (ground arith) in
      elim (Bool-cases (pause_bot && not contact.bot_paused)) [
        | inl pauses ↦
            let contact' = record contact {
              bot_paused = true;
              pause_reason = pause_reason business host e;
            } in
            rw pauses (record {
              value = record { escalation = e; conversation = conversation; contact = contact' };
              world = _;
              returned = refl;
              same_conversation = here;
              unresolved = ground arith;
              sole = sole;
              contact_stored = IsContactRow-put contact contact' w.contacts stored refl;
              same_contact = refl;
              contact_paused = ground arith;
              conversation_stored = kept;
              same_id = refl;
              handed_over = ground (arith, open_before);
              table = t;
            })
        | inr stays ↦ rw stays (record {
          value = record { escalation = e; conversation = conversation; contact = contact };
          world = w;
          returned = refl;
          same_conversation = here;
          unresolved = ground arith;
          sole = sole;
          contact_stored = stored;
          same_contact = refl;
          contact_paused = ground arith;
          conversation_stored = kept;
          same_id = refl;
          handed_over = ground (arith, open_before);
          table = t;
        })
      ]

  loads :
      (reason : EscalationReason) (w : World)
      → (summary : String) × (build_summary business host conversation contact reason w
          ≡ (ok summary, w))
  unfolding build_summary recent_history
  loads reason w = (_, refl)

  open_escalation-IsEscalated :
      (reason : EscalationReason) (confidence : Option ℕ) (pause_bot : Bool) (w : World)
      → IsEscalationTable w.escalations w.next_id
      → where_ (is_open_in conversation.id) w.escalations ≡ []
      → IsContactRow contact w
      → IsConversationRow conversation w
      → IsEscalated conversation contact
          (contact.bot_paused || pause_bot)
          w
          (open_escalation business host conversation contact reason confidence pause_bot w)
  unfolding open_escalation create_escalation mark_escalated set_bot_paused save_contact
      save_conversation
  open_escalation-IsEscalated reason confidence pause_bot w t absent stored kept =
      let (history, loaded) = loads reason w in
      let row =
        escalation_row w.next_id
          (draft business host conversation contact reason confidence history w.correlation_id) in
      let rows = IsEscalationTable-append w.escalations w.next_id row t refl absent in
      let alone = new_row w.escalations w.next_id row t refl in
      let sole = new_open w.escalations row absent (ground arith) in
      let none_open = any_of_where_-nil (is_open_in conversation.id) w.escalations absent in
      let moved = IsConversationRow-put conversation _ w.conversations kept refl in
      elim (Bool-cases pause_bot) [
        | inl pauses ↦
            rw (loaded, pauses)
              (push_new w _ _ _ (contact.bot_paused || true) row _ rows alone sole refl refl
                (IsContactRow-put contact _ w.contacts stored refl) refl (ground arith) moved refl
                refl none_open)
        | inr stays ↦
            rw (loaded, stays)
              (push_new w _ _ _ (contact.bot_paused || false) row _ rows alone sole refl refl stored
                refl (ground arith) moved refl refl none_open)
      ]

  -- Escalating a conversation with a contact, each with its one row in its table, where no
  -- conversation has two unresolved escalations, for whatever reason and whatever the CRM answers:
  -- the escalation that is returned is stored and is the only unresolved one of the conversation,
  -- and no other conversation gets a second one. The contact and the conversation that are
  -- returned are their rows afterwards: the contact is paused where it was or where that is
  -- asked, and the conversation is marked as escalated where it was or where no escalation was
  -- open.
  pub escalate-IsEscalated :
      (reason : EscalationReason) (confidence : Option ℕ) (pause_bot : Bool) (w : World)
      → IsEscalationTable w.escalations w.next_id
      → IsContactRow contact w
      → IsConversationRow conversation w
      → IsEscalated conversation contact
          (contact.bot_paused || pause_bot)
          w
          (escalate business host conversation contact reason confidence pause_bot w)
  unfolding escalate get_open_for_conversation
  escalate-IsEscalated reason confidence pause_bot w t stored kept =
      elim (Option-cases (find_last (is_open_in conversation.id) w.escalations)) [
        | inl nothing ↦ rw nothing (
            open_escalation-IsEscalated reason confidence pause_bot w t
              (find_last-none (is_open_in conversation.id) w.escalations nothing) stored kept)
        | inr (e, found) ↦ rw found (
            reuse e pause_bot w t
              (find_last-sole (is_open_in conversation.id) w.escalations e
                (t.once conversation.id).bound found)
              stored kept reason confidence)
      ]
