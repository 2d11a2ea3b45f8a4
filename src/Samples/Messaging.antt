-- ===== src/Samples/Messaging.antt =====
-- Messages and answers for the tests.
use whatsapp_bot.Prelude.{
  ℕ, String, true, false, Option, none, some, [], ◌∷◌, ◌==◌, nat_eq, ltb, leb, ◌&&◌, if◌then◌else◌,
}
use whatsapp_bot.Domain.Enums.{Intent, MessageType, ConversationState}
use whatsapp_bot.Domain.Models.{Conversation}
use whatsapp_bot.Domain.Phone.{NormalisedPhone, PhoneLibrary}
use whatsapp_bot.Domain.Schemas.{IntentResult, RetrievalResult}
use whatsapp_bot.Domain.Rules.Keywords.{Unicode}
use whatsapp_bot.Store.Session.{ok, Result}
use whatsapp_bot.Integrations.Client.Breaker.{new_breaker}
use whatsapp_bot.Integrations.Client.Request.{Http, Answer, ClientState, success, refusal}
use whatsapp_bot.Services.Escalation.{EscalationHost}
use whatsapp_bot.Services.Response.Sanitise.{TextHost}
use whatsapp_bot.Services.Conversation.Inbound.{InboundMessage, InboundHost}

-- ASCII texts in small letters.
abbrev pub ascii : Unicode
ascii = record {
  normalize_nfkd = λ t. t;
  combining = λ c. false;
  lower = λ t. t;
  is_word = λ c. ltb 64 c;
  is_space = λ c. c == 32;
}

-- Texts in which no pattern is found.
abbrev pub verbatim : TextHost
verbatim = record {
  is_space = λ c. c == b' ';
  lower = λ t. t;
  sub = λ flags pattern replacement t. t;
}

abbrev pub crm : EscalationHost
crm = record {
  decrypt = λ t. some t;
  mask_phone = λ t. t;
  confidence_text = λ c. "high";
  id_text = λ n. "20";
  strip = λ t. t;
  create_ticket = λ payload. some (some "T-1");
}

-- A number is its own code, and every number is valid.
abbrev pub phones : PhoneLibrary String
phones = record {
  is_space = λ c. c == b' ';
  is_digit = λ c. leb 48 c && leb c 57;
  hmac_sha256 = λ key text. text;
  parse = λ text region. some text;
  is_possible_number = λ n. true;
  is_valid_number = λ n. true;
  format_e164 = λ n. n;
  country_code = λ n. some 44;
  region_code = λ n. none;
}

abbrev pub sender : NormalisedPhone
sender = record { e164 = "+441"; hash = "h1"; masked = "+***1"; country_code = 44; region = none }

abbrev pub priced : IntentResult
priced = record {
  intent = Intent.pricing_inquiry;
  confidence = 900_000;
  missing_information = [];
  proposed_response = "It costs 5";
  requires_human = false;
  safety_flags = [];
  sources = "faq:1" ∷ [];
}

abbrev pub found : RetrievalResult
found = record {
  query = "price";
  hits = record { chunk_id = "faq:1"; title = "Prices"; text = "5" } ∷ [];
}

-- The API accepts or refuses every text.
abbrev pub answering : Result (Option String) → InboundHost
answering answered = record {
  normalise_phone = λ wa_id. some sender;
  encrypt = λ t. t;
  decrypt = λ t. some t;
  unicode = ascii;
  text = verbatim;
  escalation = crm;
  search = λ query k. ok found;
  injection = λ t. false;
  model = λ message retrieval turns language. ok priced;
  sent_id = λ calls call. answered;
}

abbrev pub inbound : String → ℕ → InboundMessage
inbound text moment = record {
  meta_message_id = "in1";
  wa_id = "441";
  message_type = MessageType.text;
  timestamp = moment;
  text = some text;
  profile_name = some "Grace";
}

-- The first call is refused for the moment, the next succeeds.
abbrev pub flaky : ℕ → Answer
flaky n =
    if n == 0
    then refusal (record {
      status_code = 429;
      error_code = none;
      error_message = none;
      retry_after = some 5;
    })
    else success (some "m9") none

abbrev pub http : Http
http = record {
  answer = flaky;
  before = λ n. n;
  moment = λ n. n;
  jitter = λ n base. base;
  default_message = λ status. "refused";
  network_message = "no answer";
}

abbrev pub fresh : ClientState
fresh = record { breaker = new_breaker 5 30; calls = 0; slept = 0 }

abbrev pub chat : Conversation
chat = record {
  id = 5;
  business_id = "shop";
  contact_id = 1;
  state = ConversationState.active;
  last_intent = none;
  last_confidence = none;
  escalated = false;
  human_agent = none;
  service_window_expires_at = none;
  expires_at = none;
  closed_at = none;
  correlation_id = none;
}
