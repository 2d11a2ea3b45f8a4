-- ===== src/Tests/Endpoint.antt =====
-- A signed call of the webhook endpoint.
use whatsapp_bot.Prelude.{none, ◌≡◌, refl, ◌⊎◌, String, false, some, is_blank}
use whatsapp_bot.Core.Security.{compute_signature}
use whatsapp_bot.Api.Webhooks.Endpoint.{handle_webhook}
use whatsapp_bot.Api.Webhooks.Authentic.{handle_webhook-authentic}
use whatsapp_bot.Integrations.Parser.Json.{object}
use whatsapp_bot.Samples.{start}
use whatsapp_bot.Samples.Bodies.{python, body}

abbrev digest : String → String → String
digest key text = "d1"

handle_webhook-authentic_example :
    ((handle_webhook digest
        (λ t. some (object body))
        python
        (λ job jobs. none)
        "shop"
        "production"
        "s"
        (some "sha256=d1")
        "{}"
        start).1
      ≡ start)
    ⊎ ((is_blank "s" ≡ false) × (◌≡◌ (some "sha256=d1") (some (compute_signature digest "{}" "s"))))
handle_webhook-authentic_example =
    handle_webhook-authentic digest (λ t. some (object body)) python (λ job jobs. none) "shop"
      "production" "s" (some "sha256=d1") "{}" start refl
