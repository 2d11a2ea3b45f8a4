-- ===== src/Tests/Client.antt =====
-- The WhatsApp client and masks at concrete inputs.
use whatsapp_bot.Prelude.{◌+◌, ◌*◌, ◌≤◌, ◌≡◌, refl, [], ◌∷◌, leb, ◌&&◌, arith}
use whatsapp_bot.Domain.Phone.{mask_phone}
use whatsapp_bot.Domain.Phone.Mask.{shown, mask_phone-shown}
use whatsapp_bot.Integrations.Client.Breaker.{is_open, within_reset}
use whatsapp_bot.Integrations.Client.Breaker.History.{
  succeeded, failed_at, after, streak, last_failure, is_open-after,
}
use whatsapp_bot.Integrations.Client.Request.{request}
use whatsapp_bot.Integrations.Client.Request.Attempts.{outcome_of, deciding, request-Decides}
use whatsapp_bot.Integrations.Client.Request.Delays.{minute, slept-request}
use whatsapp_bot.Samples.Messaging.{http, fresh, phones}

-- The latest call comes first.
is_open-after_example : is_open (after 2 30 (failed_at 7 ∷ failed_at 5 ∷ succeeded ∷ [])) 20 ≡ (
    leb 2 (streak (failed_at 7 ∷ failed_at 5 ∷ succeeded ∷ []))
    && within_reset 30 20 (last_failure (failed_at 7 ∷ failed_at 5 ∷ succeeded ∷ [])))
is_open-after_example =
    is_open-after 2 30 (failed_at 7 ∷ failed_at 5 ∷ succeeded ∷ []) 20 (omega arith)

request-Decides_example :
    ((request http 3 fresh).0 ≡ outcome_of http (http.answer (deciding http 3 0)))
    × ((request http 3 fresh).1.calls ≡ deciding http 3 0 + 1)
    × (deciding http 3 0 ≤ 3)
unfolding is_open
request-Decides_example = request-Decides http 3 fresh refl

slept-request_example : (request http 3 fresh).1.slept ≤ fresh.slept + 3 * minute
slept-request_example = slept-request http (λ call base. omega arith) 3 fresh

mask_phone-shown_example : shown phones.is_digit (mask_phone phones "+447700900123") ≤ 4
mask_phone-shown_example = mask_phone-shown phones refl refl "+447700900123"
