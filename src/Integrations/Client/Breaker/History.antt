-- ===== src/Integrations/Client/Breaker/History.antt =====
-- The breaker against its history: the results of the calls so far, the latest first.
use whatsapp_bot.Prelude.{
  ℕ, ◌+◌, ◌≤◌, ◌≡◌, Option, none, some, List, [], ◌∷◌, ◌&&◌, leb, arith, if◌then◌else◌,
}
use whatsapp_bot.Integrations.Client.Breaker.{
  Breaker, new_breaker, is_open, within_reset, record_success, record_failure,
}

pub data Call : Type 0 where
  succeeded : Call
  failed_at : ℕ → Call

abbrev pub after : ℕ → ℕ → List Call → Breaker
after threshold reset [] = new_breaker threshold reset
after threshold reset (succeeded ∷ calls) = record_success (after threshold reset calls)
after threshold reset (failed_at now ∷ calls) = record_failure now (after threshold reset calls)

-- The failures since the last success.
abbrev pub streak : List Call → ℕ
streak [] = 0
streak (succeeded ∷ calls) = 0
streak (failed_at _ ∷ calls) = streak calls + 1

-- The moment of the last call, where it failed.
abbrev pub last_failure : List Call → Option ℕ
last_failure [] = none
last_failure (succeeded ∷ calls) = none
last_failure (failed_at now ∷ calls) = some now

abstract_state :
    (threshold reset : ℕ) (calls : List Call)
    → 1 ≤ threshold
    → after threshold reset calls ≡ record {
      fail_threshold = threshold;
      reset_seconds = reset;
      failures = streak calls;
      opened_at = if leb threshold (streak calls) then last_failure calls else none;
    }
unfolding record_success record_failure
abstract_state threshold reset [] h = ground arith
abstract_state threshold reset (succeeded ∷ calls) h =
    rw (abstract_state threshold reset calls h) (ground arith)
abstract_state threshold reset (failed_at now ∷ calls) h =
    rw (abstract_state threshold reset calls h) (ground arith)

-- With a threshold of at least 1 the breaker is open exactly when as many calls in a row have
-- failed as the threshold says, and the last of them is less than the reset time ago; what came
-- before the last success is forgotten.
pub is_open-after :
    (threshold reset : ℕ) (calls : List Call) (now : ℕ)
    → 1 ≤ threshold
    → is_open (after threshold reset calls) now
      ≡ (leb threshold (streak calls) && within_reset reset now (last_failure calls))
unfolding is_open
is_open-after threshold reset calls now h =
    rw (abstract_state threshold reset calls h) (ground arith)
