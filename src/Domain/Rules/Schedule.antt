-- ===== src/Domain/Rules/Schedule.antt =====
-- The schedule and the service window of app/domain/rules.py. A moment is in microseconds; where
-- Python subtracts two moments and compares with a length, the subtrahend is added instead.
pub mod Laws
use whatsapp_bot.Prelude.{
  ℕ, ◌+◌, ◌*◌, ◌/◌, ◌%◌, ◌-◌, Bool, false, Option, none, some, ◌&&◌, ◌||◌, not, leb, ltb, ◌==◌,
  nat_eq, if◌then◌else◌,
}
use whatsapp_bot.Domain.Config.{
  DayHours, BusinessConfig, BotConfig, QuietHours, Zone, for_weekday, day, hour_length,
}

-- `datetime.time()` and `datetime.weekday()` of a wall clock; the epoch was a Thursday.
abbrev pub time_of_day : ℕ → ℕ
time_of_day wall = wall % day

abbrev pub weekday : ℕ → ℕ
weekday wall = (wall / day + 3) % 7

abbrev pub within_day_hours : ℕ → Option DayHours → Bool
within_day_hours wall none = false
within_day_hours wall (some hours) =
    if hours.closed
    then false
    else leb hours.opens (time_of_day wall) && ltb (time_of_day wall) hours.closes

unfoldable pub is_within_business_hours : ℕ → BusinessConfig → Bool
is_within_business_hours moment business =
    let local = business.tzinfo.to_local moment in
    within_day_hours local (for_weekday business.business_hours (weekday local))

-- The body of `is_within_quiet_hours` on the local time of day.
unfoldable pub in_quiet_window : ℕ → QuietHours → Bool
in_quiet_window local_time quiet =
    if not quiet.enabled
    then false
    else if quiet.start == quiet.finish
    then false
    else if ltb quiet.start quiet.finish
    then leb quiet.start local_time && ltb local_time quiet.finish
    else leb quiet.start local_time || ltb local_time quiet.finish

unfoldable pub is_within_quiet_hours : ℕ → BusinessConfig → BotConfig → Bool
unfolding in_quiet_window
is_within_quiet_hours moment business bot =
    in_quiet_window (time_of_day (business.tzinfo.to_local moment)) bot.quiet_hours

-- `local.replace(hour=…, minute=…, second=0, microsecond=0)`, a day later if that is not ahead
unfoldable pub next_end : ℕ → ℕ → ℕ
next_end local finish =
    let candidate = local - local % day + finish in
    if leb candidate local then candidate + day else candidate

unfoldable pub next_allowed_send_time : ℕ → BusinessConfig → BotConfig → ℕ
next_allowed_send_time moment business bot =
    if not (is_within_quiet_hours moment business bot)
    then moment
    else business.tzinfo.from_local
        (next_end (business.tzinfo.to_local moment) bot.quiet_hours.finish)

-- `SERVICE_WINDOW`: Meta's 24 hours
abbrev pub service_window : ℕ
service_window = 24 * hour_length

unfoldable pub service_window_open : Option ℕ → ℕ → Bool
service_window_open none now = false
service_window_open (some last_inbound_at) now = ltb now (last_inbound_at + service_window)
