-- ===== src/Api/Webhooks/Endpoint.antt =====
-- The two endpoints of app/api/webhooks.py: the handshake, and a call with its signature.
use whatsapp_bot.Prelude.{
  ℕ, String, Bool, true, false, Option, none, some, [], ◌∷◌, map, length, not, ◌||◌, any, is_blank,
  ◌==◌, nat_eq, string_eq, if◌then◌else◌,
}
use whatsapp_bot.Store.Session.{M, Result, Error, pure, raise, utcnow, ◌>>=◌}
use whatsapp_bot.Core.Security.{compare_digest, verify_meta_signature}
use whatsapp_bot.Integrations.Parser.Json.{Json, JsonHost}
use whatsapp_bot.Integrations.Parser.Webhook.{ParsedWebhook, total_events, parse_webhook}
use whatsapp_bot.Api.Webhooks.{Queue, handle_events}

-- What the endpoint returns; `forbidden` is the HTTP status 403.
pub data Response : Type 0 where
  forbidden invalid_json empty_body : Response
  challenge : String → Response
  handled : ℕ → ℕ → ℕ → Response

abbrev pub lift_result : {A : Type 0} → Result A → M A
lift_result answered w = (answered, w)

abbrev pub answer_challenge : String → Bool → Response
answer_challenge text true = Response.challenge text
answer_challenge text false = Response.forbidden

-- The handshake.
unfoldable pub verify_webhook : String → String → String → String → M Response
verify_webhook expected_token mode token hub_challenge =
    if not (mode == "subscribe") || is_blank expected_token
    then pure Response.forbidden
    else lift_result (compare_digest token expected_token) >>= λ same.
        pure (answer_challenge hub_challenge same)

-- `ParsedWebhook.is_empty`
abbrev pub is_empty : ParsedWebhook → Bool
is_empty r = total_events r == 0

-- Unsigned calls are accepted in development and test without a secret only.
abbrev pub signature_required : String → String → Bool
signature_required app_env app_secret =
    not (any (λ e. e == app_env) ("development" ∷ "test" ∷ [])) || not (is_blank app_secret)

module _ (hmac_sha256 : String → String → String) (json_loads : String → Option Json)
    (python : JsonHost) (queue : Queue) (business_id : String) where
  -- The events of a parsed body.
  unfoldable pub dispatch : ParsedWebhook → M Response
  dispatch r =
      if is_empty r
      then pure Response.empty_body
      else handle_events queue business_id (map (λ e. e.event_key) r.messages)
          (map (λ e. e.event_key) r.statuses)
        >>= λ claimed. pure (Response.handled (total_events r) claimed (length r.malformed))

  abbrev pub parsed_or_raise : Option ParsedWebhook → M Response
  parsed_or_raise none = raise (Error.other "ValueError")
  parsed_or_raise (some r) = dispatch r

  abbrev pub handle_json : Option Json → M Response
  handle_json none = pure Response.invalid_json
  handle_json (some body) = utcnow >>= λ now. parsed_or_raise (parse_webhook python now body)

  abbrev pub when_verified : String → Bool → M Response
  when_verified raw_body true = handle_json (json_loads raw_body)
  when_verified raw_body false = pure Response.forbidden

  unfoldable pub handle_webhook : String → String → Option String → String → M Response
  unfolding dispatch verify_meta_signature
  handle_webhook app_env app_secret header raw_body =
      if signature_required app_env app_secret
      then lift_result (verify_meta_signature hmac_sha256 raw_body header app_secret)
        >>= when_verified raw_body
      else handle_json (json_loads raw_body)
