-- ===== src/Repositories/Messages.antt =====
-- The message table of app/repositories/conversations.py.
pub mod Delivery
use whatsapp_bot.Prelude.{
  ℕ, zero, suc, String, Bool, true, false, Option, none, some, List, [], ◌∷◌, ◌++◌, ◌&&◌, ◌||◌, not,
  any, where_, take, length, leb, ltb, ◌==◌, nat_eq, string_eq, if◌then◌else◌,
}
use mathlib.Core.List.{reverse}
use whatsapp_bot.Domain.Enums.{
  Direction, MessageType, DeliveryStatus, Intent, direction_eq, delivery_status_eq,
}
use whatsapp_bot.Domain.Models.{Message}
use whatsapp_bot.Store.Rows.{put}
use whatsapp_bot.Store.Session.{
  Db, World, M, Error, pure, raise, gets, scalar_one_or_none, modify_db, utcnow, fresh_id, ◌>>=◌,
  ◌>>◌,
}

-- The arguments of `add_message`.
pub record NewMessage : Type 0 where
  pub business_id : String
  pub conversation_id : ℕ
  pub contact_id : ℕ
  pub direction : Direction
  pub message_type : MessageType
  pub meta_message_id : Option String
  pub content_encrypted : Option String
  pub content_preview : Option String
  pub intent : Option Intent
  pub confidence : Option ℕ
  pub delivery_status : Option DeliveryStatus
  pub template_name : Option String
  pub template_language : Option String
  pub campaign_id : Option ℕ
  pub correlation_id : Option String

abbrev pub is_meta_id : String → Option String → Bool
is_meta_id wanted none = false
is_meta_id wanted (some id) = id == wanted

abbrev pub has_meta_id : String → String → Message → Bool
has_meta_id business_id meta_message_id m =
    m.business_id == business_id && is_meta_id meta_message_id m.meta_message_id

-- The unique constraint counts a NULL as no value.
abbrev pub meta_id_taken : String → Option String → List Message → Bool
meta_id_taken business_id none rows = false
meta_id_taken business_id (some id) rows = any (has_meta_id business_id id) rows

abbrev pub message_row : ℕ → ℕ → NewMessage → Message
message_row id now n = record {
  id = id;
  business_id = n.business_id;
  conversation_id = n.conversation_id;
  contact_id = n.contact_id;
  meta_message_id = n.meta_message_id;
  direction = n.direction;
  message_type = n.message_type;
  content_encrypted = n.content_encrypted;
  content_preview = n.content_preview;
  intent = n.intent;
  confidence = n.confidence;
  delivery_status = n.delivery_status;
  error_code = none;
  error_detail = none;
  template_name = n.template_name;
  template_language = n.template_language;
  campaign_id = n.campaign_id;
  correlation_id = n.correlation_id;
  sent_at = if n.direction == Direction.outbound then some now else none;
  delivered_at = none;
  read_at = none;
  created_at = now;
}

-- The constraint `uq_message_business_meta_id` refuses a second row with one Meta id.
unfoldable pub add_message : NewMessage → M Message
add_message n = do
  taken ← gets (λ w. meta_id_taken n.business_id n.meta_message_id w.messages)
  id ← fresh_id
  now ← utcnow
  let row = message_row id now n
  if taken
      then raise Error.integrity
      else do modify_db (λ db. record db { messages = db.messages ++ row ∷ [] }); pure row

unfoldable pub get_by_meta_id : String → String → M (Option Message)
get_by_meta_id business_id meta_message_id = do
  scalar_one_or_none (← gets (λ w. where_ (has_meta_id business_id meta_message_id) w.messages))

-- `order.get(status, 0)`
abbrev pub rank : DeliveryStatus → ℕ
rank DeliveryStatus.queued = 0
rank DeliveryStatus.sent = 1
rank DeliveryStatus.accepted = 1
rank DeliveryStatus.delivered = 2
rank DeliveryStatus.read = 3
rank DeliveryStatus.failed = 0
rank DeliveryStatus.deleted = 0

abbrev pub is_terminal : DeliveryStatus → Bool
is_terminal status = status == DeliveryStatus.failed || status == DeliveryStatus.deleted

abbrev pub or_queued : Option DeliveryStatus → DeliveryStatus
or_queued none = DeliveryStatus.queued
or_queued (some s) = s

-- The attributes that an accepted status sets.
abbrev pub with_status : Message → DeliveryStatus → Option ℕ → Option String → ℕ → Message
with_status m DeliveryStatus.delivered code detail when = record m {
  delivery_status = some DeliveryStatus.delivered;
  delivered_at = some when;
}
with_status m DeliveryStatus.read code detail when = record m {
  delivery_status = some DeliveryStatus.read;
  read_at = some when;
}
with_status m DeliveryStatus.failed code detail when = record m {
  delivery_status = some DeliveryStatus.failed;
  error_code = code;
  error_detail = detail;
}
with_status m status code detail when = record m { delivery_status = some status }

-- The message after a status webhook: out-of-order regressions are ignored.
unfoldable pub apply_status : Message → DeliveryStatus → Option ℕ → Option String → ℕ → Message
apply_status m status code detail when =
    if is_terminal status || leb (rank (or_queued m.delivery_status)) (rank status)
    then with_status m status code detail when
    else m

abbrev pub update_found :
    DeliveryStatus → Option ℕ → Option String → ℕ → Option Message → M (Option Message)
update_found status code detail when none = pure none
update_found status code detail when (some m) = do
  let m' = apply_status m status code detail when
  modify_db (λ db. record db { messages = put (λ r. r.id) m' db.messages })
  pure (some m')

unfoldable pub update_delivery_status :
    String → String → DeliveryStatus → Option ℕ → Option String → ℕ → M (Option Message)
unfolding get_by_meta_id apply_status
update_delivery_status business_id meta_message_id status code detail moment = do
  message ← get_by_meta_id business_id meta_message_id
  update_found status code detail moment message

-- The last `limit` messages of a conversation, oldest first.
unfoldable pub recent_history : ℕ → ℕ → M (List Message)
recent_history conversation_id limit = gets (λ w.
    reverse (take limit (reverse (where_ (λ m. m.conversation_id == conversation_id) w.messages))))

unfoldable pub count_in_conversation : ℕ → M ℕ
count_in_conversation conversation_id =
    gets (λ w. length (where_ (λ m. m.conversation_id == conversation_id) w.messages))

-- Returns the number of rows deleted.
unfoldable pub delete_older_than : String → ℕ → M ℕ
delete_older_than business_id cutoff = do
  let old : Message → Bool = λ m. m.business_id == business_id && ltb m.created_at cutoff
  gone ← gets (λ w. length (where_ old w.messages))
  modify_db (λ db. record db { messages = where_ (λ m. not (old m)) db.messages })
  pure gone
