-- ===== src/Integrations/Parser/Events.antt =====
-- `_parse_message` and `_parse_status` of app/integrations/webhook_parser.py.
use whatsapp_bot.Prelude.{
  ℕ, String, any, Option, none, some, List, [], ◌∷◌, or_text, is_blank, joined, ◌==◌, string_eq,
  if◌then◌else◌,
}
use whatsapp_bot.Domain.Enums.{MessageType, DeliveryStatus}
use whatsapp_bot.Integrations.Parser.Json.{
  Members, JsonHost, Moment, as_dict, get, clip_text, str_or,
}

-- `InboundMessage`; the metadata of media and places, which no modelled code reads, is left out.
pub record MessageEvent : Type 0 where
  pub event_key : String
  pub meta_message_id : String
  pub wa_id : String
  pub phone_number_id : String
  pub waba_id : String
  pub message_type : MessageType
  pub timestamp : ℕ
  pub text : Option String
  pub profile_name : Option String
  pub interactive_id : Option String
  pub interactive_title : Option String
  pub context_message_id : Option String
  pub raw_type : String

-- `StatusUpdate`, without its error objects.
pub record StatusEvent : Type 0 where
  pub event_key : String
  pub meta_message_id : String
  pub recipient_wa_id : String
  pub phone_number_id : String
  pub waba_id : String
  pub status : DeliveryStatus
  pub timestamp : ℕ
  pub conversation_id : Option String
  pub conversation_origin : Option String
  pub pricing_category : Option String

abbrev pub max_text_chars : ℕ
max_text_chars = 4096

abbrev pub lookup : {A : Type 0} → List (String × A) → String → Option A
lookup [] key = none
lookup ((k, v) ∷ rest) key = if k == key then some v else lookup rest key

-- `_TYPE_MAP`
abbrev pub type_map : List (String × MessageType)
type_map =
    ("text", MessageType.text)
    ∷ ("image", MessageType.image)
    ∷ ("document", MessageType.document)
    ∷ ("audio", MessageType.audio)
    ∷ ("video", MessageType.video)
    ∷ ("sticker", MessageType.sticker)
    ∷ ("location", MessageType.location)
    ∷ ("contacts", MessageType.contacts)
    ∷ ("button", MessageType.button)
    ∷ ("reaction", MessageType.reaction)
    ∷ ("order", MessageType.order)
    ∷ ("system", MessageType.system)
    ∷ ("unsupported", MessageType.unsupported)
    ∷ []

-- `_STATUS_MAP`
abbrev pub status_map : List (String × DeliveryStatus)
status_map =
    ("sent", DeliveryStatus.sent)
    ∷ ("accepted", DeliveryStatus.accepted)
    ∷ ("delivered", DeliveryStatus.delivered)
    ∷ ("read", DeliveryStatus.read)
    ∷ ("failed", DeliveryStatus.failed)
    ∷ ("deleted", DeliveryStatus.deleted)
    ∷ ("warning", DeliveryStatus.sent)
    ∷ []

abbrev pub media_types : List String
media_types = "image" ∷ "document" ∷ "audio" ∷ "video" ∷ "sticker" ∷ []

abbrev pub or_unsupported : Option MessageType → MessageType
or_unsupported none = MessageType.unsupported
or_unsupported (some t) = t

-- What a message says, by its type.
pub record Content : Type 0 where
  pub message_type : MessageType
  pub text : Option String
  pub interactive_id : Option String
  pub interactive_title : Option String

abbrev pub saying : MessageType → Option String → Content
saying t text = record {
  message_type = t;
  text = text;
  interactive_id = none;
  interactive_title = none;
}

-- A choice: its id, its title, and the text.
abbrev pub choosing : MessageType → Option String → Option String → Option String → Content
choosing t id title text = record {
  message_type = t;
  text = text;
  interactive_id = id;
  interactive_title = title;
}

-- An f-string writes `None` for no title.
abbrev pub described : Option String → Option String → Option String
described title none = title
described title (some description) =
    if is_blank description then title else some (joined (shown title ∷ ": " ∷ description ∷ []))
  where
    shown : Option String → String
    shown none = "None"
    shown (some t) = t

-- What `_parse_status` does: an exception, `None`, or an event.
pub data ParsedStatus : Type 0 where
  raised missing : ParsedStatus
  parsed : StatusEvent → ParsedStatus

module _ (host : JsonHost) where
  abbrev pub interactive_content : Members → Content
  interactive_content interactive =
      let kind = str_or host (get interactive "type") "" in
      let button = as_dict (get interactive "button_reply") in
      let row = as_dict (get interactive "list_reply") in
      if kind == "button_reply"
      then choosing MessageType.interactive_button_reply (clip_text 256 (get button "id"))
          (clip_text 256 (get button "title")) (clip_text 256 (get button "title"))
      else if kind == "list_reply"
      then choosing MessageType.interactive_list_reply (clip_text 256 (get row "id"))
          (clip_text 256 (get row "title"))
          (described (clip_text 256 (get row "title")) (clip_text 1024 (get row "description")))
      else saying MessageType.unsupported none

  unfoldable pub content_of : String → Members → Content
  content_of raw_type item =
      let t = or_unsupported (lookup type_map raw_type) in
      let part = as_dict (get item raw_type) in
      if raw_type == "text"
      then saying t (clip_text max_text_chars (get part "body"))
      else if raw_type == "interactive"
      then interactive_content part
      else if raw_type == "button"
      then choosing t (clip_text 256 (get part "payload")) (clip_text 256 (get part "text"))
          (clip_text 256 (get part "text"))
      else if raw_type == "location"
      then saying t (some (or_text (clip_text 256 (get part "name")) "shared a location"))
      else if any (λ m. m == raw_type) media_types
      then saying t (clip_text 1024 (get part "caption"))
      else if raw_type == "reaction"
      then saying t (clip_text 16 (get part "emoji"))
      else if raw_type == "order"
      then saying t (clip_text 1024 (get part "text"))
      else if raw_type == "system"
      then saying t (clip_text 1024 (get part "body"))
      else saying t none

  -- `_parse_timestamp`; `none` is an exception that it does not catch.
  abbrev pub timestamp_at : ℕ → Moment → Option ℕ
  timestamp_at now (Moment.at t) = some t
  timestamp_at now Moment.not_a_number = some now
  timestamp_at now Moment.out_of_range = none

  abbrev pub or_fingerprint : String → Members → String
  or_fingerprint id item = if is_blank id then joined ("msg:" ∷ host.fingerprint item ∷ []) else id

  abbrev pub message_event : String → String → List (String × String) → Members → ℕ → MessageEvent
  message_event phone_number_id waba_id profiles item timestamp =
      let id = str_or host (get item "id") "" in
      let wa_id = str_or host (get item "from") "" in
      let raw_type = str_or host (get item "type") "unknown" in
      let content = content_of raw_type item in
      record {
        event_key = or_fingerprint id item;
        meta_message_id = id;
        wa_id = wa_id;
        phone_number_id = phone_number_id;
        waba_id = waba_id;
        message_type = content.message_type;
        timestamp = timestamp;
        text = content.text;
        profile_name = lookup profiles wa_id;
        interactive_id = content.interactive_id;
        interactive_title = content.interactive_title;
        context_message_id = clip_text 256 (get (as_dict (get item "context")) "id");
        raw_type = raw_type;
      }

  abbrev pub map_option : {A B : Type 0} → (A → B) → Option A → Option B
  map_option f none = none
  map_option f (some a) = some (f a)

  unfoldable pub parse_message :
      ℕ → String → String → List (String × String) → Members → Option MessageEvent
  parse_message now phone_number_id waba_id profiles item =
      map_option (message_event phone_number_id waba_id profiles item)
        (timestamp_at now (host.moment (get item "timestamp")))

  abbrev pub status_event :
      String → String → Members → String → String → DeliveryStatus → ℕ → StatusEvent
  status_event phone_number_id waba_id item id raw_status status timestamp =
      let conversation = as_dict (get item "conversation") in
      record {
        event_key = joined (id ∷ ":" ∷ raw_status ∷ []);
        meta_message_id = id;
        recipient_wa_id = str_or host (get item "recipient_id") "";
        phone_number_id = phone_number_id;
        waba_id = waba_id;
        status = status;
        timestamp = timestamp;
        conversation_id = clip_text 128 (get conversation "id");
        conversation_origin = clip_text 64 (get (as_dict (get conversation "origin")) "type");
        pricing_category = clip_text 64 (get (as_dict (get item "pricing")) "category");
      }

  abbrev pub status_with : (ℕ → StatusEvent) → Option ℕ → ParsedStatus
  status_with event none = raised
  status_with event (some t) = parsed (event t)

  abbrev pub status_known :
      ℕ → String → String → Members → String → String → Option DeliveryStatus → ParsedStatus
  status_known now phone_number_id waba_id item id raw_status none = missing
  status_known now phone_number_id waba_id item id raw_status (some status) =
      if is_blank id
      then missing
      else status_with (status_event phone_number_id waba_id item id raw_status status)
          (timestamp_at now (host.moment (get item "timestamp")))

  unfoldable pub parse_status : ℕ → String → String → Members → ParsedStatus
  parse_status now phone_number_id waba_id item =
      let raw_status = host.lower (str_or host (get item "status") "") in
      status_known now phone_number_id waba_id item (str_or host (get item "id") "") raw_status
        (lookup status_map raw_status)
