-- ===== src/Tests/Rules.antt =====
-- The rules of app/domain/rules.py at concrete inputs.
use whatsapp_bot.Prelude.{
  ℕ, ◌+◌, ◌-◌, ◌%◌, ◌≤◌, ◌<◌, ◌≡◌, refl, ◌↔◌, true, false, none, some, arith, Any, is_some, codes,
  ltb, nat_eq, length,
}
use whatsapp_bot.Domain.Enums.{ConsentStatus}
use whatsapp_bot.Domain.Config.{day, time, TemplateDefinition}
use whatsapp_bot.Domain.Rules.Schedule.{
  in_quiet_window, is_within_quiet_hours, next_allowed_send_time,
}
use whatsapp_bot.Domain.Rules.Schedule.Laws.{
  IsValidQuiet, IsFixedOffset, in_quiet_window_arc, next_allowed_send_time_earliest,
}
use whatsapp_bot.Domain.Rules.Eligibility.{SendContext, evaluate_send_eligibility}
use whatsapp_bot.Domain.Rules.Eligibility.Laws.{MaySend, evaluate_send_eligibility_iff}
use whatsapp_bot.Domain.Rules.Keywords.{
  normalise_keyword_text, detect_opt_out, split, max_optout_words,
}
use whatsapp_bot.Domain.Rules.Keywords.Laws.{Commands, detect_opt_out_iff}
use whatsapp_bot.Samples.Messaging.{ascii}
use whatsapp_bot.Samples.{shop, bot, night, utc, offer, noon, long_stop}

night-IsValidQuiet : IsValidQuiet night
night-IsValidQuiet = record { start = ground arith; finish = ground arith }

utc-IsFixedOffset : IsFixedOffset utc
utc-IsFixedOffset = record { shift = λ t d. refl; back = λ t. refl }

in_quiet_window_arc_example :
    in_quiet_window (time 23 0) night
    ≡ ltb ((time 23 0 + day - night.start) % day) ((night.finish + day - night.start) % day)
in_quiet_window_arc_example =
    in_quiet_window_arc (time 23 0) night night-IsValidQuiet (ground arith) refl

next_allowed_send_time_earliest_example :
    (time 23 0 ≤ next_allowed_send_time (time 23 0) shop bot)
    × (is_within_quiet_hours (next_allowed_send_time (time 23 0) shop bot) shop bot ≡ false)
    × ((e : ℕ)
        → time 23 0 + e < next_allowed_send_time (time 23 0) shop bot
        → is_within_quiet_hours (time 23 0 + e) shop bot ≡ true)
next_allowed_send_time_earliest_example =
    next_allowed_send_time_earliest shop bot utc-IsFixedOffset (time 23 0) night-IsValidQuiet

abbrev opted_out : SendContext
opted_out = record {
  consent_status = ConsentStatus.opted_out;
  consent_purpose = none;
  suppressed = false;
  template = some offer;
  now = noon;
  already_sent_in_campaign = false;
}

evaluate_send_eligibility_iff_example :
    ((evaluate_send_eligibility opted_out shop bot).allowed ≡ true)
    ↔ ((template : TemplateDefinition) × MaySend opted_out shop bot template)
evaluate_send_eligibility_iff_example = evaluate_send_eligibility_iff opted_out shop bot

detect_opt_out_iff_example :
    (is_some (detect_opt_out ascii "please stop" bot) ≡ true)
    ↔ Any
        (λ k.
          Commands
            (normalise_keyword_text ascii (codes "please stop"))
            (normalise_keyword_text ascii (codes k)))
        bot.stop_words
detect_opt_out_iff_example = detect_opt_out_iff ascii "please stop" bot

long_words : max_optout_words < length (split (normalise_keyword_text ascii (codes long_stop)))
unfolding normalise_keyword_text
long_words = ground arith

long_hit : is_some (detect_opt_out ascii long_stop bot) ≡ true
unfolding detect_opt_out normalise_keyword_text
long_hit = refl
