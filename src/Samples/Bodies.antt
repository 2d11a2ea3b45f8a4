-- ===== src/Samples/Bodies.antt =====
-- A webhook body with a message, a status and an error.
use whatsapp_bot.Prelude.{true, false, some}
use whatsapp_bot.Integrations.Parser.Json.{
  Json, Members, JsonHost, Moment, text, object, array, end, element, empty, member,
}

abbrev pub python : JsonHost
python = record {
  moment = λ value. Moment.at 5;
  text_of = λ value. "None";
  is_zero = λ n. false;
  is_digits = λ s. true;
  to_int = λ s. some 7;
  lower = λ s. s;
  fingerprint = λ item. "f";
}

abbrev one : Members → Json
one item = array (element (object item) end)

abbrev message : Members
message = member "id" (text "in1") (
    member "from" (text "441") (
      member "type" (text "text")
        (member "text" (object (member "body" (text "stop") empty)) empty)))

abbrev status : Members
status = member "id" (text "m1") (member "status" (text "read") empty)

abbrev change : Members
change = member "field" (text "messages") (
    member "value"
      (object (
        member "messages" (one message) (
          member "statuses" (one status)
            (member "errors" (one (member "code" (text "7") empty)) empty))))
      empty)

abbrev pub body : Members
body =
    member "object" (text "whatsapp_business_account")
      (member "entry" (one (member "changes" (one change) empty)) empty)
