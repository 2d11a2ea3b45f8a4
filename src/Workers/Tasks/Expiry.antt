-- ===== src/Workers/Tasks/Expiry.antt =====
-- What the periodic expiry of conversations leaves.
use whatsapp_bot.Prelude.{
  ℕ, ◌≡◌, refl, String, Bool, true, false, Option, none, some, List, [], ◌∷◌, ◌&&◌, not, ltb,
  where_, length, map, any, arith, if◌then◌else◌, ◌==◌, string_eq,
}
use whatsapp_bot.Domain.Enums.{ConversationState}
use whatsapp_bot.Domain.Models.{Conversation}
use whatsapp_bot.Store.Session.{World, ok, session_scope}
use whatsapp_bot.Repositories.Conversations.{is_stale, expired_at, expire_stale}
use whatsapp_bot.Workers.Tasks.{cleanup_expired_conversations_task}

-- A state in which a conversation goes on.
abbrev pub goes_on : ConversationState → Bool
goes_on ConversationState.closed = false
goes_on ConversationState.expired = false
goes_on state = true

-- A time that is set and not ahead.
abbrev pub is_reached : Option ℕ → ℕ → Bool
is_reached none now = false
is_reached (some t) now = not (ltb now t)

-- A conversation of the business that goes on beyond its time.
abbrev pub is_overdue : String → ℕ → Conversation → Bool
is_overdue b now c = goes_on c.state && is_reached c.expires_at now && c.business_id == b

-- The row after the sweep.
abbrev pub swept : String → ℕ → Conversation → Conversation
swept b now c =
    if is_overdue b now c
    then record c { state = ConversationState.expired; closed_at = some now }
    else c

is_stale-is_overdue :
    (b : String) (now : ℕ) (c : Conversation) → is_stale b now c ≡ is_overdue b now c
is_stale-is_overdue b now c = ground arith

rows_swept :
    (b : String) (now : ℕ) (rows : List Conversation)
    → map (λ c. if is_stale b now c then expired_at now c else c) rows ≡ map (swept b now) rows
rows_swept b now [] = refl
rows_swept b now (c ∷ cs) = rw (is_stale-is_overdue b now c, rows_swept b now cs) refl

count_swept :
    (b : String) (now : ℕ) (rows : List Conversation)
    → where_ (is_stale b now) rows ≡ where_ (is_overdue b now) rows
count_swept b now [] = refl
count_swept b now (c ∷ cs) = rw (is_stale-is_overdue b now c, count_swept b now cs) refl

none_overdue :
    (b : String) (now : ℕ) (rows : List Conversation)
    → any (is_overdue b now) (map (swept b now) rows) ≡ false
none_overdue b now [] = refl
none_overdue b now (c ∷ cs) = ground (arith, none_overdue b now cs)

-- The periodic task returns the number of the conversations of the business that go on at or beyond
-- their time of expiry by the clock. It makes those expired and closed now, leaves every other row
-- and all other tables as they were, and none such is left afterwards.
pub cleanup_expired_conversations_task-exact :
    (b : String) (w : World)
    → (cleanup_expired_conversations_task b w ≡ (
      ok (length (where_ (is_overdue b w.now) w.conversations)),
      record w { db = record w.db { conversations = map (swept b w.now) w.conversations } },
    ))
      × (any (is_overdue b w.now) (cleanup_expired_conversations_task b w).1.conversations ≡ false)
unfolding cleanup_expired_conversations_task expire_stale session_scope
cleanup_expired_conversations_task-exact b w =
    rw (rows_swept b w.now w.conversations, count_swept b w.now w.conversations)
      (refl, none_overdue b w.now w.conversations)
