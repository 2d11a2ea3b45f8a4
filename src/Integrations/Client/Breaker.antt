-- ===== src/Integrations/Client/Breaker.antt =====
-- `CircuitBreaker` of app/integrations/whatsapp_client.py. Moments of the monotonic clock are in
-- microseconds; `now - opened_at < reset` is written with the subtrahend added.
pub mod History
use whatsapp_bot.Prelude.{ℕ, ◌+◌, Bool, false, Option, none, some, leb, ltb, if◌then◌else◌}

pub record Breaker : Type 0 where
  pub fail_threshold : ℕ
  pub reset_seconds : ℕ
  pub failures : ℕ
  pub opened_at : Option ℕ

pub data BreakerState : Type 0 where
  closed opened half_open : BreakerState

abbrev pub new_breaker : ℕ → ℕ → Breaker
new_breaker fail_threshold reset_seconds = record {
  fail_threshold = fail_threshold;
  reset_seconds = reset_seconds;
  failures = 0;
  opened_at = none;
}

abbrev pub within_reset : ℕ → ℕ → Option ℕ → Bool
within_reset reset_seconds now none = false
within_reset reset_seconds now (some opened_at) = ltb now (opened_at + reset_seconds)

unfoldable pub is_open : Breaker → ℕ → Bool
is_open b now = within_reset b.reset_seconds now b.opened_at

abbrev pub state_at : Bool → Option ℕ → BreakerState
state_at open_now none = BreakerState.closed
state_at open_now (some _) = if open_now then BreakerState.opened else BreakerState.half_open

unfoldable pub breaker_state : Breaker → ℕ → BreakerState
unfolding is_open
breaker_state b now = state_at (is_open b now) b.opened_at

unfoldable pub record_success : Breaker → Breaker
record_success b = record b { failures = 0; opened_at = none }

unfoldable pub record_failure : ℕ → Breaker → Breaker
record_failure now b =
    if leb b.fail_threshold (b.failures + 1)
    then record b { failures = b.failures + 1; opened_at = some now }
    else record b { failures = b.failures + 1 }

unfoldable pub reset : Breaker → Breaker
reset b = record b { failures = 0; opened_at = none }
