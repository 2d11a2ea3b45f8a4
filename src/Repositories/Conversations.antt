-- ===== src/Repositories/Conversations.antt =====
-- The conversation table of app/repositories/conversations.py.
pub mod Expiry
use whatsapp_bot.Prelude.{
  ℕ, ◌+◌, ◌*◌, String, Bool, true, false, Option, none, some, List, [], ◌∷◌, ◌++◌, ◌&&◌, ◌||◌, not,
  where_, length, leb, ◌==◌, nat_eq, string_eq, if◌then◌else◌, map,
}
use whatsapp_bot.Domain.Enums.{ConversationState, Intent, conversation_state_eq}
use whatsapp_bot.Domain.Models.{Conversation}
use whatsapp_bot.Domain.Config.{hour_length}
use whatsapp_bot.Store.Rows.{put, find_last}
use whatsapp_bot.Store.Session.{
  Db, World, M, pure, gets, scalar_one_or_none, modify_db, utcnow, fresh_id, ◌>>=◌, ◌>>◌,
}

unfoldable pub save_conversation : Conversation → M Conversation
save_conversation c = do
  modify_db (λ db. record db { conversations = put (λ r. r.id) c db.conversations })
  pure c

-- `state.notin_([CLOSED, EXPIRED])`
abbrev pub is_open : Conversation → Bool
is_open c = not (c.state == ConversationState.closed || c.state == ConversationState.expired)

abbrev pub is_open_for : String → ℕ → Conversation → Bool
is_open_for business_id contact_id c =
    c.business_id == business_id && c.contact_id == contact_id && is_open c

unfoldable pub get_active : String → ℕ → M (Option Conversation)
get_active business_id contact_id =
    gets (λ w. find_last (is_open_for business_id contact_id) w.conversations)

unfoldable pub create_conversation : String → ℕ → ℕ → M Conversation
create_conversation business_id contact_id expiry_hours = do
  now ← utcnow
  id ← fresh_id
  correlation ← gets (λ w. w.correlation_id)
  let row : Conversation = record {
    id = id;
    business_id = business_id;
    contact_id = contact_id;
    state = ConversationState.active;
    last_intent = none;
    last_confidence = none;
    escalated = false;
    human_agent = none;
    service_window_expires_at = some (now + 24 * hour_length);
    expires_at = some (now + expiry_hours * hour_length);
    closed_at = none;
    correlation_id = correlation;
  }
  modify_db (λ db. record db { conversations = db.conversations ++ row ∷ [] })
  pure row

abbrev pub has_expired : Option ℕ → ℕ → Bool
has_expired none now = false
has_expired (some expires_at) now = leb expires_at now

abbrev pub expired_at : ℕ → Conversation → Conversation
expired_at now c = record c { state = ConversationState.expired; closed_at = some now }

-- An expired conversation is closed, and a new one is opened.
unfoldable pub renew : String → ℕ → ℕ → Option Conversation → ℕ → M Conversation
unfolding save_conversation create_conversation
renew business_id contact_id expiry_hours none now =
    create_conversation business_id contact_id expiry_hours
renew business_id contact_id expiry_hours (some existing) now =
    if has_expired existing.expires_at now
    then (do
      save_conversation (expired_at now existing)
      create_conversation business_id contact_id expiry_hours)
    else pure existing

unfoldable pub get_or_create_conversation : String → ℕ → ℕ → M Conversation
unfolding get_active renew
get_or_create_conversation business_id contact_id expiry_hours = do
  existing ← get_active business_id contact_id
  now ← utcnow
  renew business_id contact_id expiry_hours existing now

unfoldable pub touch_conversation : Conversation → ℕ → M Conversation
unfolding save_conversation
touch_conversation c expiry_hours = do
  now ← utcnow
  save_conversation (record c {
    expires_at = some (now + expiry_hours * hour_length);
    service_window_expires_at = some (now + 24 * hour_length);
  })

unfoldable pub get_conversation_by_id : String → ℕ → M (Option Conversation)
get_conversation_by_id business_id id = do
  scalar_one_or_none
      (← gets (λ w. where_ (λ c. c.business_id == business_id && c.id == id) w.conversations))

abbrev pub with_state : Conversation → ConversationState → ℕ → Conversation
with_state c ConversationState.closed now = record c {
  state = ConversationState.closed;
  closed_at = some now;
}
with_state c ConversationState.expired now = record c {
  state = ConversationState.expired;
  closed_at = some now;
}
with_state c state now = record c { state = state }

unfoldable pub set_state : Conversation → ConversationState → M Conversation
unfolding save_conversation
set_state c state = do now ← utcnow; save_conversation (with_state c state now)

unfoldable pub record_analysis : Conversation → Intent → ℕ → M Conversation
unfolding save_conversation
record_analysis c intent confidence =
    save_conversation (record c { last_intent = some intent; last_confidence = some confidence })

unfoldable pub mark_escalated : Conversation → Option String → M Conversation
unfolding save_conversation
mark_escalated c human_agent =
    save_conversation (record c {
      escalated = true;
      state = ConversationState.escalated;
      human_agent = human_agent;
    })

abbrev pub is_stale : String → ℕ → Conversation → Bool
is_stale business_id moment c =
    c.business_id == business_id && has_expired c.expires_at moment && is_open c

-- The bulk update of `expire_stale`, and the number of rows that it changed.
unfoldable pub expire_stale : String → Option ℕ → M ℕ
expire_stale business_id now = do
  clock ← utcnow
  let moment : ℕ = elim now [ none ↦ clock | some t ↦ t ]
  closed ← gets (λ w. length (where_ (is_stale business_id moment) w.conversations))
  modify_db (λ db. record db {
    conversations =
        map (λ c. if is_stale business_id moment c then expired_at moment c else c)
          db.conversations;
  })
  pure closed
