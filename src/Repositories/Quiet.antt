-- ===== src/Repositories/Quiet.antt =====
-- The operations on the tables call nothing outside the program.
use whatsapp_bot.Prelude.{
  ℕ, refl, String, Option, none, some, any, where_, inl, inr, Bool-cases, ◌==◌, string_eq,
}
use whatsapp_bot.Domain.Models.{Contact, Conversation, SuppressionEntry}
use whatsapp_bot.Store.Rows.{find_last}
use whatsapp_bot.Store.Session.{World, M, scalar_one_or_none}
use whatsapp_bot.Store.Quiet.{Quiet, bind-Quiet, scalar-Quiet}
use whatsapp_bot.Repositories.Contacts.{
  has_hash, get_by_hash, create_contact, or_create, get_or_create_contact, suppresses, or_suppress,
  create_suppression, remove_found, remove_suppression,
}
use whatsapp_bot.Repositories.Conversations.{
  get_or_create_conversation, renew, has_expired, is_open_for,
}
use whatsapp_bot.Repositories.Consents.{is_paused, get_bot_state}
use whatsapp_bot.Repositories.Messages.{add_message, NewMessage, meta_id_taken}

pub add_message-Quiet : (n : NewMessage) (w : World) → Quiet (add_message n) w
unfolding add_message
add_message-Quiet n w =
    elim (Bool-cases (meta_id_taken n.business_id n.meta_message_id w.messages)) [
      | inl taken ↦ rw taken refl
      | inr free ↦ rw free refl
    ]

renew-Quiet :
    (b : String) (c h : ℕ) (existing : Option Conversation) (now : ℕ) (w : World)
    → Quiet (renew b c h existing now) w
unfolding renew
renew-Quiet b c h none now w = refl
renew-Quiet b c h (some existing) now w = elim (Bool-cases (has_expired existing.expires_at now)) [
  | inl over ↦ rw over refl
  | inr live ↦ rw live refl
]

pub get_or_create_conversation-Quiet :
    (b : String) (c h : ℕ) (w : World) → Quiet (get_or_create_conversation b c h) w
unfolding get_or_create_conversation
get_or_create_conversation-Quiet b c h w =
    renew-Quiet b c h (find_last (is_open_for b c) w.conversations) w.now w

or_create-Quiet :
    (found : Option Contact) (b h e m : String) (name : Option String) (locale : String) (w : World)
    → Quiet (or_create found (create_contact b h e m name locale)) w
unfolding create_contact
or_create-Quiet (some c) b h e m name locale w = refl
or_create-Quiet none b h e m name locale w = elim (Bool-cases (any (has_hash b h) w.contacts)) [
  | inl taken ↦ rw taken refl
  | inr free ↦ rw free refl
]

pub get_or_create_contact-Quiet :
    (b h e m : String) (name : Option String) (locale : String) (w : World)
    → Quiet (get_or_create_contact b h e m name locale) w
unfolding get_or_create_contact get_by_hash
get_or_create_contact-Quiet b h e m name locale w =
    bind-Quiet (scalar_one_or_none (where_ (has_hash b h) w.contacts)) _
      (scalar-Quiet (where_ (has_hash b h) w.contacts) w)
      λ found w'. or_create-Quiet found b h e m name locale w'

or_suppress-Quiet :
    (found : Option SuppressionEntry) (create : M SuppressionEntry) (w : World)
    → Quiet create w
    → Quiet (or_suppress found create) w
or_suppress-Quiet none create w quiet = quiet
or_suppress-Quiet (some e) create w quiet = refl

pub create_suppression-Quiet :
    (b h m r : String) (detail : Option String) (w : World)
    → Quiet (create_suppression b h m r detail) w
unfolding create_suppression
create_suppression-Quiet b h m r detail w =
    bind-Quiet (scalar_one_or_none (where_ (suppresses b h) w.suppressions)) _
      (scalar-Quiet (where_ (suppresses b h) w.suppressions) w)
      λ found w'. or_suppress-Quiet found _ w' refl

remove_found-Quiet : (found : Option SuppressionEntry) (w : World) → Quiet (remove_found found) w
remove_found-Quiet none w = refl
remove_found-Quiet (some e) w = refl

pub remove_suppression-Quiet : (b h : String) (w : World) → Quiet (remove_suppression b h) w
unfolding remove_suppression
remove_suppression-Quiet b h w =
    bind-Quiet (scalar_one_or_none (where_ (suppresses b h) w.suppressions)) _
      (scalar-Quiet (where_ (suppresses b h) w.suppressions) w)
      λ found w'. remove_found-Quiet found w'

pub is_paused-Quiet : (b : String) (w : World) → Quiet (is_paused b) w
unfolding is_paused get_bot_state
is_paused-Quiet b w =
    bind-Quiet (scalar_one_or_none (where_ (λ s. s.business_id == b) w.bot_states)) _
      (scalar-Quiet (where_ (λ s. s.business_id == b) w.bot_states) w) λ found w'. refl
