-- ===== src/Integrations/Parser/Items.antt =====
-- The items of a webhook body, and what the loops over its messages and statuses deal with.
use whatsapp_bot.Prelude.{
  ℕ, ◌+◌, ◌≡◌, String, Option, none, some, List, [], ◌∷◌, length, length-append, ◌==◌, string_eq,
  if◌then◌else◌, Bool-cases, inl, inr, arith,
}
use whatsapp_bot.Integrations.Parser.Json.{
  Json, Members, JsonHost, as_list, as_dict, get, is_empty_dict, str_or,
}
use whatsapp_bot.Integrations.Parser.Events.{
  MessageEvent, ParsedStatus, raised, missing, parsed, parse_message, parse_status,
}
use whatsapp_bot.Integrations.Parser.Webhook.{
  ParsedWebhook, Malformed, total_events, reject, keep_message, keep_status, take_message,
  take_messages, take_status, take_statuses,
}

-- The items of a body: of every change of the field `messages`, its messages, statuses and errors.
abbrev pub value_items : Members → ℕ
value_items value =
    length (as_list (get value "messages"))
    + length (as_list (get value "statuses"))
    + length (as_list (get value "errors"))

-- What has been dealt with.
abbrev handled : ParsedWebhook → ℕ
handled r = total_events r + length r.malformed

-- A step that returns, and deals with so many items more.
pub record Handles (n : ℕ) (before : ParsedWebhook) (after : Option ParsedWebhook) : Type 0 where
  pub result : ParsedWebhook
  pub returned : after ≡ some result
  pub count : handled result ≡ handled before + n

handled-reject : (why : Malformed) (r : ParsedWebhook) → handled (reject why r) ≡ handled r + 1
unfolding total_events
handled-reject why r = let more = length-append r.malformed (why ∷ []) in omega (arith, more)

handled-keep_message :
    (e : Option MessageEvent) (r : ParsedWebhook) → handled (keep_message e r) ≡ handled r + 1
unfolding total_events
handled-keep_message none r = handled-reject Malformed.message_failure r
handled-keep_message (some e) r =
    let more = length-append r.messages (e ∷ []) in omega (arith, more)

handled-keep_status :
    (e : ParsedStatus) (r : ParsedWebhook) → handled (keep_status e r) ≡ handled r + 1
unfolding total_events
handled-keep_status raised r = handled-reject Malformed.status_failure r
handled-keep_status missing r = handled-reject Malformed.status_missing r
handled-keep_status (parsed e) r =
    let more = length-append r.statuses (e ∷ []) in omega (arith, more)

module _ (host : JsonHost) (now : ℕ) where
  abbrev pub change_items : Members → ℕ
  change_items change =
      if str_or host (get change "field") "" == "messages"
      then value_items (as_dict (get change "value"))
      else 0

  abbrev pub changes_items : List Json → ℕ
  changes_items [] = 0
  changes_items (c ∷ changes) = change_items (as_dict (some c)) + changes_items changes

  abbrev pub items : List Json → ℕ
  items [] = 0
  items (e ∷ entries) = changes_items (as_list (get (as_dict (some e)) "changes")) + items entries

  pub handled-take_messages :
      (phone waba : String) (profiles : List (String × String)) (xs : List Json) (r : ParsedWebhook)
      → handled (take_messages host now phone waba profiles xs r) ≡ handled r + length xs
  handled-take_messages phone waba profiles [] r = omega arith
  handled-take_messages phone waba profiles (x ∷ xs) r =
      let r1 = take_message host now phone waba profiles (as_dict (some x)) r in
      omega (arith, one (as_dict (some x)), handled-take_messages phone waba profiles xs r1)
    where
      one :
          (item : Members)
          → handled (take_message host now phone waba profiles item r) ≡ handled r + 1
      one item = elim (Bool-cases (is_empty_dict item)) [
        | inl hollow ↦ rw hollow (handled-reject Malformed.message_no_object r)
        | inr full ↦
            rw full (handled-keep_message (parse_message host now phone waba profiles item) r)
      ]

  pub handled-take_statuses :
      (phone waba : String) (xs : List Json) (r : ParsedWebhook)
      → handled (take_statuses host now phone waba xs r) ≡ handled r + length xs
  handled-take_statuses phone waba [] r = omega arith
  handled-take_statuses phone waba (x ∷ xs) r =
      let r1 = take_status host now phone waba (as_dict (some x)) r in
      omega (arith, one (as_dict (some x)), handled-take_statuses phone waba xs r1)
    where
      one : (item : Members) → handled (take_status host now phone waba item r) ≡ handled r + 1
      one item = elim (Bool-cases (is_empty_dict item)) [
        | inl hollow ↦ rw hollow (handled-reject Malformed.status_no_object r)
        | inr full ↦ rw full (handled-keep_status (parse_status host now phone waba item) r)
      ]
