-- ===== src/Integrations/Parser/Conservation.antt =====
-- No item of a webhook body is lost: each is an event or is recorded as malformed.
use whatsapp_bot.Prelude.{
  or-false, any, not, ◌&&◌, Bool, false, true, ℕ, ◌+◌, ◌≡◌, refl, String, true, Option, none, some,
  List, [], ◌∷◌, ◌++◌, length, length-append, is_some, is_blank, ◌==◌, string_eq, if◌then◌else◌,
  Bool-cases, inl, inr, arith,
}
use whatsapp_bot.Integrations.Parser.Json.{
  Json, Members, JsonHost, object, as_list, as_dict, get, str_or,
}
use whatsapp_bot.Integrations.Parser.Webhook.{
  ParsedWebhook, nothing_parsed, total_events, take_messages, take_statuses, str_of, keep_error,
  take_error, take_errors, then_parse, take_value, take_change, take_changes, take_entry,
  take_entries, ignore_field, is_account, parse_webhook, profiles_of, error_event,
}
use whatsapp_bot.Integrations.Parser.Items.{
  value_items, Handles, change_items, changes_items, items, handled-take_messages,
  handled-take_statuses,
}

module _ (host : JsonHost) (now : ℕ) where
  counted :
      {m n : ℕ} {r : ParsedWebhook} {o : Option ParsedWebhook}
      → m ≡ n
      → Handles m r o
      → Handles n r o
  counted same h = record {
    result = h.result;
    returned = h.returned;
    count = omega (arith, h.count, same);
  }

  -- One step after another.
  Handles-then :
      (m n : ℕ) (r : ParsedWebhook) (o : Option ParsedWebhook)
      (rest : ParsedWebhook → Option ParsedWebhook)
      → Handles m r o
      → ((r' : ParsedWebhook) → Handles n r' (rest r'))
      → Handles (m + n) r (then_parse host now o rest)
  Handles-then m n r o rest first second =
      let last = second first.result in
      record {
        result = last.result;
        returned = rw first.returned last.returned;
        count = omega (arith, first.count, last.count);
      }

  -- A code of digits that is no number.
  abbrev bad_error : Members → Bool
  bad_error error =
      host.is_digits (str_of host now (get error "code"))
      && not (is_some (host.to_int (str_of host now (get error "code"))))

  abbrev bad_errors : List Json → Bool
  bad_errors xs = any (λ x. bad_error (as_dict (some x))) xs

  abbrev bad_change : Members → Bool
  bad_change change =
      if str_or host (get change "field") "" == "messages"
      then bad_errors (as_list (get (as_dict (get change "value")) "errors"))
      else false

  abbrev bad_changes : List Json → Bool
  bad_changes xs = any (λ x. bad_change (as_dict (some x))) xs

  abbrev pub has_bad_code : List Json → Bool
  has_bad_code entries = any (λ x. bad_changes (as_list (get (as_dict (some x)) "changes"))) entries

  keep_error-Handles :
      (waba : String) (error : Members) (code : Option ℕ) (r : ParsedWebhook)
      → is_some code ≡ true
      → Handles 1 r (keep_error host now waba error code r)
  unfolding total_events
  keep_error-Handles waba error none r converts = absurd cc
  keep_error-Handles waba error (some code) r converts =
      let more = length-append r.system_errors (error_event host now waba error (some code) ∷ []) in
      record { result = _; returned = refl; count = omega (arith, more) }

  convertible :
      (found : Bool) (code : Option ℕ)
      → found ≡ true
      → (found && not (is_some code)) ≡ false
      → is_some code ≡ true
  convertible found code number good = ground arith

  take_error-Handles :
      (waba : String) (error : Members) (r : ParsedWebhook)
      → bad_error error ≡ false
      → Handles 1 r (take_error host now waba error r)
  unfolding total_events take_error
  take_error-Handles waba error r good =
      let code = str_of host now (get error "code") in
      elim (Bool-cases (host.is_digits code)) [
        | inl number ↦ rw number (
            keep_error-Handles waba error (host.to_int code) r
              (convertible _ (host.to_int code) number good))
        | inr other ↦
            let more = length-append r.system_errors (error_event host now waba error none ∷ []) in
            rw other (record { result = _; returned = refl; count = omega (arith, more) })
      ]

  take_errors-Handles :
      (waba : String) (xs : List Json) (r : ParsedWebhook)
      → bad_errors xs ≡ false
      → Handles (length xs) r (take_errors host now waba xs r)
  take_errors-Handles waba [] r good = record { result = r; returned = refl; count = omega arith }
  take_errors-Handles waba (x ∷ xs) r good =
      let (first, others) = or-false _ _ good in
      counted (omega arith) (
        Handles-then 1 (length xs) r (take_error host now waba (as_dict (some x)) r)
          (take_errors host now waba xs) (take_error-Handles waba (as_dict (some x)) r first)
          λ r1. take_errors-Handles waba xs r1 others)

  take_value-Handles :
      (waba : String) (value : Members) (r : ParsedWebhook)
      → bad_errors (as_list (get value "errors")) ≡ false
      → Handles (value_items value) r (take_value host now waba value r)
  unfolding take_value
  take_value-Handles waba value r good =
      let phone = str_or host (get (as_dict (get value "metadata")) "phone_number_id") "" in
      let profiles = profiles_of host now (as_list (get value "contacts")) [] in
      let r1 = take_messages host now phone waba profiles (as_list (get value "messages")) r in
      let r2 = take_statuses host now phone waba (as_list (get value "statuses")) r1 in
      let last = take_errors-Handles waba (as_list (get value "errors")) r2 good in
      record {
        result = last.result;
        returned = last.returned;
        count = omega (
          arith,
          last.count,
          handled-take_messages host now phone waba profiles (as_list (get value "messages")) r,
          handled-take_statuses host now phone waba (as_list (get value "statuses")) r1,
        );
      }

  ignore_field-Handles :
      (name : String) (r : ParsedWebhook) → Handles 0 r (some (ignore_field host now name r))
  unfolding total_events
  ignore_field-Handles name r = elim (Bool-cases (is_blank name)) [
    | inl blank ↦ rw blank (record { result = r; returned = refl; count = omega arith })
    | inr named ↦ rw named (record {
      result = record r { ignored_fields = r.ignored_fields ++ name ∷ [] };
      returned = refl;
      count = omega arith;
    })
  ]

  take_change-Handles :
      (waba : String) (change : Members) (r : ParsedWebhook)
      → bad_change change ≡ false
      → Handles (change_items host now change) r (take_change host now waba change r)
  take_change-Handles waba change r good =
      elim (Bool-cases (str_or host (get change "field") "" == "messages")) [
        | inl ours ↦
            let good_errors = rw ours at good in
            rw ours (take_value-Handles waba (as_dict (get change "value")) r good_errors)
        | inr other ↦ rw other (ignore_field-Handles (str_or host (get change "field") "") r)
      ]

  take_changes-Handles :
      (waba : String) (xs : List Json) (r : ParsedWebhook)
      → bad_changes xs ≡ false
      → Handles (changes_items host now xs) r (take_changes host now waba xs r)
  take_changes-Handles waba [] r good = record { result = r; returned = refl; count = omega arith }
  take_changes-Handles waba (x ∷ xs) r good =
      let (first, others) = or-false _ _ good in
      Handles-then (change_items host now (as_dict (some x))) (changes_items host now xs) r
        (take_change host now waba (as_dict (some x)) r) (take_changes host now waba xs)
        (take_change-Handles waba (as_dict (some x)) r first)
        λ r1. take_changes-Handles waba xs r1 others

  take_entries-Handles :
      (xs : List Json) (r : ParsedWebhook)
      → has_bad_code xs ≡ false
      → Handles (items host now xs) r (take_entries host now xs r)
  take_entries-Handles [] r good = record { result = r; returned = refl; count = omega arith }
  take_entries-Handles (x ∷ xs) r good =
      let (first, others) = or-false _ _ good in
      let entry = as_dict (some x) in
      Handles-then (changes_items host now (as_list (get entry "changes"))) (items host now xs) r
        (take_entry host now entry r) (take_entries host now xs)
        (take_changes-Handles (str_or host (get entry "id") "") (as_list (get entry "changes")) r
          first)
        λ r1. take_entries-Handles xs r1 others

  -- Where no error item has a code of digits that is no number, the body of an account is parsed
  -- without an exception, and the events and the malformed items host now together are as many as the
  -- messages, statuses and errors of its changes.
  pub parse_webhook-conserves :
      (payload : Members)
      → is_account host now (get payload "object") ≡ true
      → has_bad_code (as_list (get payload "entry")) ≡ false
      → (r : ParsedWebhook) × (parse_webhook host now (object payload) ≡ some r)
        × (total_events r + length r.malformed ≡ items host now (as_list (get payload "entry")))
  unfolding parse_webhook total_events
  parse_webhook-conserves payload ours good =
      let all = take_entries-Handles (as_list (get payload "entry")) nothing_parsed good in
      (all.result, rw ours all.returned, omega (arith, all.count))
