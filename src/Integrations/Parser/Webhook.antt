-- ===== src/Integrations/Parser/Webhook.antt =====
-- `parse_webhook` of app/integrations/webhook_parser.py. The result is threaded through the loops.
use whatsapp_bot.Prelude.{
  ℕ, ◌+◌, String, Bool, false, Option, none, some, List, [], ◌∷◌, ◌++◌, length, clip, is_blank,
  joined, ◌==◌, string_eq, if◌then◌else◌,
}
use whatsapp_bot.Integrations.Parser.Json.{
  Json, Members, JsonHost, null, boolean, number, text, array, object, as_list, as_dict, get,
  is_empty_dict, clip_text, truthy, str, str_or,
}
use whatsapp_bot.Integrations.Parser.Events.{
  MessageEvent, StatusEvent, ParsedStatus, raised, missing, parsed, parse_message, parse_status,
}

pub record SystemError : Type 0 where
  pub event_key : String
  pub waba_id : String
  pub code : Option ℕ
  pub title : String
  pub detail : Option String

pub data Malformed : Type 0 where
  no_object unexpected_object message_no_object message_failure status_no_object status_failure
        status_missing :
      Malformed

pub record ParsedWebhook : Type 0 where
  pub messages : List MessageEvent
  pub statuses : List StatusEvent
  pub system_errors : List SystemError
  pub malformed : List Malformed
  pub ignored_fields : List String

abbrev pub nothing_parsed : ParsedWebhook
nothing_parsed = record {
  messages = [];
  statuses = [];
  system_errors = [];
  malformed = [];
  ignored_fields = [];
}

unfoldable pub total_events : ParsedWebhook → ℕ
total_events r = length r.messages + length r.statuses + length r.system_errors

abbrev pub reject : Malformed → ParsedWebhook → ParsedWebhook
reject why r = record r { malformed = r.malformed ++ why ∷ [] }

abbrev pub keep_message : Option MessageEvent → ParsedWebhook → ParsedWebhook
keep_message none r = reject Malformed.message_failure r
keep_message (some e) r = record r { messages = r.messages ++ e ∷ [] }

abbrev pub keep_status : ParsedStatus → ParsedWebhook → ParsedWebhook
keep_status raised r = reject Malformed.status_failure r
keep_status missing r = reject Malformed.status_missing r
keep_status (parsed e) r = record r { statuses = r.statuses ++ e ∷ [] }

module _ (host : JsonHost) (now : ℕ) where
  -- One entry of `profiles`; the last of a number counts, so it goes in front.
  abbrev pub add_profile : Members → List (String × String) → List (String × String)
  add_profile contact profiles = named (get (as_dict (get contact "profile")) "name")
    where
      wa_id : String
      wa_id = str_or host (get contact "wa_id") ""

      named : Option Json → List (String × String)
      named (some (text name)) =
          if is_blank wa_id then profiles else (wa_id, clip 128 name) ∷ profiles
      named (some null) = profiles
      named (some (boolean _)) = profiles
      named (some (number _)) = profiles
      named (some (array _)) = profiles
      named (some (object _)) = profiles
      named none = profiles

  abbrev pub profiles_of : List Json → List (String × String) → List (String × String)
  profiles_of [] profiles = profiles
  profiles_of (c ∷ contacts) profiles =
      profiles_of contacts (add_profile (as_dict (some c)) profiles)

  module _ (phone_number_id waba_id : String) where
    abbrev pub take_message : List (String × String) → Members → ParsedWebhook → ParsedWebhook
    take_message profiles item r =
        if is_empty_dict item
        then reject Malformed.message_no_object r
        else keep_message (parse_message host now phone_number_id waba_id profiles item) r

    abbrev pub take_messages : List (String × String) → List Json → ParsedWebhook → ParsedWebhook
    take_messages profiles [] r = r
    take_messages profiles (item ∷ items) r =
        take_messages profiles items (take_message profiles (as_dict (some item)) r)

    abbrev pub take_status : Members → ParsedWebhook → ParsedWebhook
    take_status item r =
        if is_empty_dict item
        then reject Malformed.status_no_object r
        else keep_status (parse_status host now phone_number_id waba_id item) r

    abbrev pub take_statuses : List Json → ParsedWebhook → ParsedWebhook
    take_statuses [] r = r
    take_statuses (item ∷ items) r = take_statuses items (take_status (as_dict (some item)) r)

  abbrev pub str_of : Option Json → String
  str_of none = str host null
  str_of (some v) = str host v

  -- `error.get("message") or error_data.get("details")`
  abbrev pub detail_of : Members → Option Json → Option String
  detail_of error none = clip_text 1024 (get (as_dict (get error "error_data")) "details")
  detail_of error (some v) =
      if truthy host v
      then clip_text 1024 (some v)
      else clip_text 1024 (get (as_dict (get error "error_data")) "details")

  abbrev pub error_event : String → Members → Option ℕ → SystemError
  error_event waba_id error code = record {
    event_key = joined ("err:" ∷ host.fingerprint error ∷ []);
    waba_id = waba_id;
    code = code;
    title = clip 256 (str_or host (get error "title") "unknown error");
    detail = detail_of error (get error "message");
  }

  -- `int` of a text of digits; `none` is its `ValueError`, which nothing catches.
  abbrev pub keep_error : String → Members → Option ℕ → ParsedWebhook → Option ParsedWebhook
  keep_error waba_id error none r = none
  keep_error waba_id error (some code) r =
      some
        (record r { system_errors = r.system_errors ++ error_event waba_id error (some code) ∷ [] })

  unfoldable pub take_error : String → Members → ParsedWebhook → Option ParsedWebhook
  take_error waba_id error r =
      let code = str_of (get error "code") in
      if host.is_digits code
      then keep_error waba_id error (host.to_int code) r
      else some
          (record r { system_errors = r.system_errors ++ error_event waba_id error none ∷ [] })

  abbrev pub then_parse :
      Option ParsedWebhook → (ParsedWebhook → Option ParsedWebhook) → Option ParsedWebhook
  then_parse none rest = none
  then_parse (some r) rest = rest r

  abbrev pub take_errors : String → List Json → ParsedWebhook → Option ParsedWebhook
  take_errors waba_id [] r = some r
  take_errors waba_id (item ∷ items) r =
      then_parse (take_error waba_id (as_dict (some item)) r) (take_errors waba_id items)

  -- The body of a change of the field `messages`.
  unfoldable pub take_value : String → Members → ParsedWebhook → Option ParsedWebhook
  take_value waba_id value r =
      let phone_number_id =
        str_or host (get (as_dict (get value "metadata")) "phone_number_id") "" in
      let profiles = profiles_of (as_list (get value "contacts")) [] in
      take_errors waba_id (as_list (get value "errors")) (
        take_statuses phone_number_id waba_id (as_list (get value "statuses"))
          (take_messages phone_number_id waba_id profiles (as_list (get value "messages")) r))

  abbrev pub ignore_field : String → ParsedWebhook → ParsedWebhook
  ignore_field name r =
      if is_blank name then r else record r { ignored_fields = r.ignored_fields ++ name ∷ [] }

  abbrev pub take_change : String → Members → ParsedWebhook → Option ParsedWebhook
  take_change waba_id change r =
      if str_or host (get change "field") "" == "messages"
      then take_value waba_id (as_dict (get change "value")) r
      else some (ignore_field (str_or host (get change "field") "") r)

  abbrev pub take_changes : String → List Json → ParsedWebhook → Option ParsedWebhook
  take_changes waba_id [] r = some r
  take_changes waba_id (c ∷ changes) r =
      then_parse (take_change waba_id (as_dict (some c)) r) (take_changes waba_id changes)

  abbrev pub take_entry : Members → ParsedWebhook → Option ParsedWebhook
  take_entry entry r =
      take_changes (str_or host (get entry "id") "") (as_list (get entry "changes")) r

  abbrev pub take_entries : List Json → ParsedWebhook → Option ParsedWebhook
  take_entries [] r = some r
  take_entries (e ∷ entries) r = then_parse (take_entry (as_dict (some e)) r) (take_entries entries)

  abbrev pub is_account : Option Json → Bool
  is_account (some (text s)) = s == "whatsapp_business_account"
  is_account (some null) = false
  is_account (some (boolean _)) = false
  is_account (some (number _)) = false
  is_account (some (array _)) = false
  is_account (some (object _)) = false
  is_account none = false

  -- `none` is an exception.
  unfoldable pub parse_webhook : Json → Option ParsedWebhook
  unfolding take_value
  parse_webhook (object payload) =
      if is_account (get payload "object")
      then take_entries (as_list (get payload "entry")) nothing_parsed
      else some (reject Malformed.unexpected_object nothing_parsed)
  parse_webhook null = some (reject Malformed.no_object nothing_parsed)
  parse_webhook (boolean _) = some (reject Malformed.no_object nothing_parsed)
  parse_webhook (number _) = some (reject Malformed.no_object nothing_parsed)
  parse_webhook (text _) = some (reject Malformed.no_object nothing_parsed)
  parse_webhook (array _) = some (reject Malformed.no_object nothing_parsed)
