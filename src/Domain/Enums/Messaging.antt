-- ===== src/Domain/Enums/Messaging.antt =====
-- The enumerations of app/domain/enums.py about messages and conversations. Equality of members is
-- `is`.
use whatsapp_bot.Prelude.{ℕ, String, ◌≡◌, ◌↔◌, Bool, true, arith, Eq, nat_eq, ◌==◌}

pub data Direction : Type 0 where
  inbound outbound : Direction

abbrev pub direction_index : Direction → ℕ
direction_index Direction.inbound = 0
direction_index Direction.outbound = 1

abbrev pub direction_beq : Direction → Direction → Bool
direction_beq a b = direction_index a == direction_index b

pub direction_beq_iff : (a b : Direction) → (direction_beq a b ≡ true) ↔ (a ≡ b)
direction_beq_iff a b = ground arith

instance abbrev pub direction_eq : Eq Direction
direction_eq = record { beq = direction_beq; beq_iff = direction_beq_iff }

pub data MessageType : Type 0 where
  text image document audio video sticker location contacts interactive_button_reply
        interactive_list_reply button template reaction order system unsupported :
      MessageType

-- `MessageType.value`
abbrev pub message_type_value : MessageType → String
message_type_value MessageType.text = "text"
message_type_value MessageType.image = "image"
message_type_value MessageType.document = "document"
message_type_value MessageType.audio = "audio"
message_type_value MessageType.video = "video"
message_type_value MessageType.sticker = "sticker"
message_type_value MessageType.location = "location"
message_type_value MessageType.contacts = "contacts"
message_type_value MessageType.interactive_button_reply = "interactive_button_reply"
message_type_value MessageType.interactive_list_reply = "interactive_list_reply"
message_type_value MessageType.button = "button"
message_type_value MessageType.template = "template"
message_type_value MessageType.reaction = "reaction"
message_type_value MessageType.order = "order"
message_type_value MessageType.system = "system"
message_type_value MessageType.unsupported = "unsupported"

abbrev pub message_type_index : MessageType → ℕ
message_type_index MessageType.text = 0
message_type_index MessageType.image = 1
message_type_index MessageType.document = 2
message_type_index MessageType.audio = 3
message_type_index MessageType.video = 4
message_type_index MessageType.sticker = 5
message_type_index MessageType.location = 6
message_type_index MessageType.contacts = 7
message_type_index MessageType.interactive_button_reply = 8
message_type_index MessageType.interactive_list_reply = 9
message_type_index MessageType.button = 10
message_type_index MessageType.template = 11
message_type_index MessageType.reaction = 12
message_type_index MessageType.order = 13
message_type_index MessageType.system = 14
message_type_index MessageType.unsupported = 15

abbrev pub message_type_beq : MessageType → MessageType → Bool
message_type_beq a b = message_type_index a == message_type_index b

pub message_type_beq_iff : (a b : MessageType) → (message_type_beq a b ≡ true) ↔ (a ≡ b)
message_type_beq_iff a b = ground arith

instance abbrev pub message_type_eq : Eq MessageType
message_type_eq = record { beq = message_type_beq; beq_iff = message_type_beq_iff }

pub data DeliveryStatus : Type 0 where
  queued sent accepted delivered read failed deleted : DeliveryStatus

abbrev pub delivery_status_index : DeliveryStatus → ℕ
delivery_status_index DeliveryStatus.queued = 0
delivery_status_index DeliveryStatus.sent = 1
delivery_status_index DeliveryStatus.accepted = 2
delivery_status_index DeliveryStatus.delivered = 3
delivery_status_index DeliveryStatus.read = 4
delivery_status_index DeliveryStatus.failed = 5
delivery_status_index DeliveryStatus.deleted = 6

abbrev pub delivery_status_beq : DeliveryStatus → DeliveryStatus → Bool
delivery_status_beq a b = delivery_status_index a == delivery_status_index b

pub delivery_status_beq_iff : (a b : DeliveryStatus) → (delivery_status_beq a b ≡ true) ↔ (a ≡ b)
delivery_status_beq_iff a b = ground arith

instance abbrev pub delivery_status_eq : Eq DeliveryStatus
delivery_status_eq = record { beq = delivery_status_beq; beq_iff = delivery_status_beq_iff }

pub data ConversationState : Type 0 where
  active awaiting_customer escalated human_handling paused closed expired : ConversationState

abbrev pub conversation_state_index : ConversationState → ℕ
conversation_state_index ConversationState.active = 0
conversation_state_index ConversationState.awaiting_customer = 1
conversation_state_index ConversationState.escalated = 2
conversation_state_index ConversationState.human_handling = 3
conversation_state_index ConversationState.paused = 4
conversation_state_index ConversationState.closed = 5
conversation_state_index ConversationState.expired = 6

abbrev pub conversation_state_beq : ConversationState → ConversationState → Bool
conversation_state_beq a b = conversation_state_index a == conversation_state_index b

pub conversation_state_beq_iff :
    (a b : ConversationState) → (conversation_state_beq a b ≡ true) ↔ (a ≡ b)
conversation_state_beq_iff a b = ground arith

instance abbrev pub conversation_state_eq : Eq ConversationState
conversation_state_eq = record {
  beq = conversation_state_beq;
  beq_iff = conversation_state_beq_iff;
}
