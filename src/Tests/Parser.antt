-- ===== src/Tests/Parser.antt =====
-- The parser of webhook bodies at a concrete input.
use whatsapp_bot.Prelude.{◌+◌, ◌≡◌, refl, some, length}
use whatsapp_bot.Integrations.Parser.Json.{object, as_list, get}
use whatsapp_bot.Samples.Bodies.{python, body}
use whatsapp_bot.Integrations.Parser.Webhook.{ParsedWebhook, total_events, parse_webhook}
use whatsapp_bot.Integrations.Parser.Conservation.{parse_webhook-conserves}
use whatsapp_bot.Integrations.Parser.Items.{items}

parse_webhook-conserves_example :
    (r : ParsedWebhook) × (parse_webhook python 9 (object body) ≡ some r)
    × (total_events r + length r.malformed ≡ items python 9 (as_list (get body "entry")))
parse_webhook-conserves_example = parse_webhook-conserves python 9 body refl refl

-- All three are dealt with.
three : items python 9 (as_list (get body "entry")) ≡ 3
three = refl
