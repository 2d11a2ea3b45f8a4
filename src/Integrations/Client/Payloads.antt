-- ===== src/Integrations/Client/Payloads.antt =====
-- The bodies that the WhatsApp client sends, and what it makes of the answers.
use whatsapp_bot.Prelude.{
  ℕ, String, Bool, true, false, Option, none, some, List, map, take, clip, or_text, or_none,
}
use whatsapp_bot.Integrations.Client.Request.{
  Http, ApiError, ClientState, Outcome, answered, failed, circuit_open, crashed, request,
}

pub record Button : Type 0 where
  pub id : String
  pub title : String

pub record Section : Type 0 where
  pub title : String
  pub rows : List Button

-- The JSON bodies; `header` is present where it is given and not empty, and so are the components
-- of a template.
pub data Body : Type 0 where
  text : String → String → Bool → Body
  template : String → String → String → List String → Body
  buttons : String → String → List Button → Option String → Body
  rows : String → String → String → List Section → Option String → Body
  read : String → Body

abbrev pub header_of : Option String → Option String
header_of none = none
header_of (some header) = or_none (clip 60 header)

abbrev pub clip_button : Button → Button
clip_button b = record { id = clip 256 b.id; title = clip 20 b.title }

unfoldable pub text_body : String → String → Bool → Body
text_body to body preview_url = text to (clip 4096 body) preview_url

unfoldable pub template_body : String → String → String → List String → Body
template_body to name language variables = template to name language variables

unfoldable pub buttons_body : String → String → List Button → Option String → Body
buttons_body to body items header =
    buttons to (clip 1024 body) (map clip_button (take 3 items)) (header_of header)

unfoldable pub list_body : String → String → String → List Section → Option String → Body
list_body to body button_text sections header =
    rows to (clip 1024 body) (clip 20 button_text) (take 10 sections) (header_of header)

pub record SendResult : Type 0 where
  pub meta_message_id : String
  pub recipient_wa_id : String

-- `_extract_result`: the first message's id or an empty text, the first contact's id or the number.
unfoldable pub extract_result : Option String → Option String → String → SendResult
extract_result message_id wa_id fallback_to = record {
  meta_message_id = or_text message_id "";
  recipient_wa_id = or_text wa_id fallback_to;
}

pub data Sent : Type 0 where
  delivered : SendResult → Sent
  refused : ApiError → Sent
  blocked : Sent
  broken : Sent

abbrev pub sent_of : String → Outcome → Sent
sent_of to (answered message_id wa_id) = delivered (extract_result message_id wa_id to)
sent_of to (failed e) = refused e
sent_of to circuit_open = blocked
sent_of to crashed = broken

-- Whether a call succeeded; `none` is an exception that is not the client's own.
abbrev pub succeeded : Outcome → Option Bool
succeeded (answered _ _) = some true
succeeded (failed _) = some false
succeeded circuit_open = some false
succeeded crashed = none

module _ (http : Http) (max_retries : ℕ) where
  -- `_send` of a body, whose answers `http` gives.
  unfoldable pub send : Body → String → ClientState → Sent × ClientState
  send body to s = let (o, s') = request http max_retries s in (sent_of to o, s')

  -- Catches the exceptions of the client.
  unfoldable pub mark_as_read : String → ClientState → Option Bool × ClientState
  mark_as_read message_id s = let (o, s') = request http max_retries s in (succeeded o, s')

  -- `configured` is `settings.meta_is_configured()`.
  unfoldable pub health_check : Bool → ClientState → Option Bool × ClientState
  health_check false s = (some false, s)
  health_check true s = let (o, s') = request http max_retries s in (succeeded o, s')
