-- ===== src/Domain/Rules/Schedule/Laws.antt =====
-- Quiet hours as an arc of the day's circle, and the next time at which sending is allowed.
use whatsapp_bot.Prelude.{
  ℕ, ◌+◌, ◌-◌, ◌%◌, ◌≤◌, ◌<◌, ◌≡◌, ap, sym, ◌∙◌, true, false, inl, inr, arith, ltb, Bool-cases,
}
use whatsapp_bot.Domain.Config.{BusinessConfig, BotConfig, QuietHours, Zone, day}
use whatsapp_bot.Domain.Rules.Schedule.{
  time_of_day, in_quiet_window, is_within_quiet_hours, next_end, next_allowed_send_time,
}

-- What the validator of `QuietHours` guarantees: both ends are times of day.
pub record IsValidQuiet (quiet : QuietHours) : Type 0 where
  pub start : quiet.start < day
  pub finish : quiet.finish < day

-- A zone with no clock change: it moves every moment by the same amount, and converts back.
pub record IsFixedOffset (z : Zone) : Type 0 where
  pub shift : (t d : ℕ) → z.to_local (t + d) ≡ z.to_local t + d
  pub back : (t : ℕ) → z.from_local (z.to_local t) ≡ t

-- With quiet hours on and both ends times of day, a time of day is quiet exactly when, going round
-- the clock from their start, it is met before their end; so a window that crosses midnight is one
-- arc.
pub in_quiet_window_arc :
    (t : ℕ) (quiet : QuietHours)
    → IsValidQuiet quiet
    → t < day
    → quiet.enabled ≡ true
    → in_quiet_window t quiet
      ≡ ltb ((t + day - quiet.start) % day) ((quiet.finish + day - quiet.start) % day)
unfolding in_quiet_window
in_quiet_window_arc t quiet v h on = ground arith

module _ (w : ℕ) (quiet : QuietHours) (v : IsValidQuiet quiet) where
  next_end_ahead : w < next_end w quiet.finish
  unfolding next_end
  next_end_ahead = ground arith

  next_end_loud :
      in_quiet_window (time_of_day w) quiet ≡ true
      → in_quiet_window (time_of_day (next_end w quiet.finish)) quiet ≡ false
  unfolding next_end in_quiet_window
  next_end_loud q = ground arith

  next_end_quiet :
      (e : ℕ)
      → in_quiet_window (time_of_day w) quiet ≡ true
      → w + e < next_end w quiet.finish
      → in_quiet_window (time_of_day (w + e)) quiet ≡ true
  unfolding next_end in_quiet_window
  next_end_quiet e q h = ground arith

module _ (business : BusinessConfig) (bot : BotConfig) (fixed : IsFixedOffset business.tzinfo) where
  -- In quiet hours the result is as far ahead as the wall clock is from the window's end.
  next_allowed_distance :
      (t : ℕ)
      → IsValidQuiet bot.quiet_hours
      → is_within_quiet_hours t business bot ≡ true
      → (d : ℕ) × (next_allowed_send_time t business bot ≡ t + d)
        × (business.tzinfo.to_local t + d
            ≡ next_end (business.tzinfo.to_local t) bot.quiet_hours.finish)
  unfolding next_allowed_send_time
  next_allowed_distance t v q =
      let local = business.tzinfo.to_local t in
      let end = next_end local bot.quiet_hours.finish in
      let ahead : local + (end - local) ≡ end =
        omega (arith, next_end_ahead local bot.quiet_hours v) in
      (
        end - local,
        rw q (
            ap business.tzinfo.from_local (sym ahead ∙ sym (fixed.shift t (end - local)))
            ∙ fixed.back (t + (end - local))),
        ahead,
      )

  next_allowed_in_quiet :
      (t : ℕ)
      → IsValidQuiet bot.quiet_hours
      → is_within_quiet_hours t business bot ≡ true
      → (t ≤ next_allowed_send_time t business bot)
        × (is_within_quiet_hours (next_allowed_send_time t business bot) business bot ≡ false)
        × ((e : ℕ)
            → t + e < next_allowed_send_time t business bot
            → is_within_quiet_hours (t + e) business bot ≡ true)
  unfolding is_within_quiet_hours
  next_allowed_in_quiet t v q =
      let (d, at, wall) = next_allowed_distance t v q in
      let local = business.tzinfo.to_local t in
      (
        omega (arith, at),
        rw (at, fixed.shift t d, wall) (next_end_loud local bot.quiet_hours v q),
        λ e h.
            rw (fixed.shift t e)
              (next_end_quiet local bot.quiet_hours v e q (omega (arith, at, wall, h))),
      )

  -- In a zone with no clock change, where both ends of the quiet hours are times of day, the next
  -- allowed time is at or after the moment and not in quiet hours, and every time from the moment
  -- on and before it is.
  pub next_allowed_send_time_earliest :
      (t : ℕ)
      → IsValidQuiet bot.quiet_hours
      → (t ≤ next_allowed_send_time t business bot)
        × (is_within_quiet_hours (next_allowed_send_time t business bot) business bot ≡ false)
        × ((e : ℕ)
            → t + e < next_allowed_send_time t business bot
            → is_within_quiet_hours (t + e) business bot ≡ true)
  next_allowed_send_time_earliest t v = elim (Bool-cases (is_within_quiet_hours t business bot)) [
    | inl quiet ↦ next_allowed_in_quiet t v quiet
    | inr loud ↦
        let now : next_allowed_send_time t business bot ≡ t =
          unfold next_allowed_send_time in rw loud in
        (omega (arith, now), rw (now, loud), λ e h. absurd (omega (arith, now)))
  ]
