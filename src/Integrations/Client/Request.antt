-- ===== src/Integrations/Client/Request.antt =====
-- `_request` and `_map_error` of app/integrations/whatsapp_client.py: retries, backoff and the
-- circuit breaker. The HTTP client, the clock and the jitter are parameters.
pub mod Attempts
pub mod Delays
use whatsapp_bot.Prelude.{
  ℕ, zero, suc, ◌+◌, ◌*◌, ◌^◌, Bool, true, false, Option, none, some, String, List, [], ◌∷◌, ◌&&◌,
  ◌||◌, any, leb, ltb, min, ◌==◌, nat_eq, or_text, clip, if◌then◌else◌,
}
use whatsapp_bot.Integrations.Client.Breaker.{Breaker, is_open, record_success, record_failure}

abbrev pub retryable_meta_codes : List ℕ
retryable_meta_codes = 4 ∷ 80007 ∷ 130429 ∷ 131048 ∷ 131056 ∷ 133016 ∷ 1 ∷ 2 ∷ []

abbrev pub permanent_meta_codes : List ℕ
permanent_meta_codes =
    131047 ∷ 131051 ∷ 131026 ∷ 132000 ∷ 132001 ∷ 132005 ∷ 132007 ∷ 132012 ∷ 132015 ∷ 132016 ∷ 131008
    ∷ 131009 ∷ 100 ∷ 190 ∷ 131064 ∷ []

-- `meta_code in codes`
abbrev pub has_code : Option ℕ → List ℕ → Bool
has_code none codes = false
has_code (some code) codes = any (λ c. c == code) codes

-- What `_map_error` reads of a response: `error.code` where its text is digits, `error.message`,
-- and `Retry-After` in microseconds where it parses.
pub record HttpResponse : Type 0 where
  pub status_code : ℕ
  pub error_code : Option ℕ
  pub error_message : Option String
  pub retry_after : Option ℕ

pub record ApiError : Type 0 where
  pub status_code : ℕ
  pub meta_code : Option ℕ
  pub message : String
  pub retryable : Bool
  pub retry_after : Option ℕ

unfoldable pub is_retryable : ℕ → Option ℕ → Bool
is_retryable status meta_code =
    if has_code meta_code permanent_meta_codes
    then false
    else if has_code meta_code retryable_meta_codes
    then true
    else status == 429 || leb 500 status && ltb status 600

-- `default_message` is the sentence "Meta API returned HTTP {status}".
unfoldable pub map_error : (ℕ → String) → HttpResponse → ApiError
unfolding is_retryable
map_error default_message r = record {
  status_code = r.status_code;
  meta_code = r.error_code;
  message = clip 512 (or_text r.error_message (default_message r.status_code));
  retryable = is_retryable r.status_code r.error_code;
  retry_after = r.retry_after;
}

-- What one HTTP call comes to: no response, a success with the first message id and the first
-- contact's id of its body, another response, or one on which `_map_error` itself raises: a code of
-- digits that `int` does not take, or an `error_data` that is not a dictionary.
pub data Answer : Type 0 where
  no_response : Answer
  success : Option String → Option String → Answer
  refusal : HttpResponse → Answer
  unreadable : Answer

-- The HTTP client: the answer to the n-th call since the start, and the clock before and
-- after it. `jitter` is
-- `random.uniform(0, base)` before the n-th call, and the messages are the sentences of the errors
-- that carry no text of Meta's.
pub record Http : Type 0 where
  pub answer : ℕ → Answer
  pub before : ℕ → ℕ
  pub moment : ℕ → ℕ
  pub jitter : ℕ → ℕ → ℕ
  pub default_message : ℕ → String
  pub network_message : String

-- The client between two steps: the breaker, the HTTP calls made, and the time slept.
pub record ClientState : Type 0 where
  pub breaker : Breaker
  pub calls : ℕ
  pub slept : ℕ

-- `crashed` is an exception that is neither of the client's own.
pub data Outcome : Type 0 where
  answered : Option String → Option String → Outcome
  failed : ApiError → Outcome
  circuit_open : Outcome
  crashed : Outcome

-- `2.0 ** attempt` seconds, at most 30
abbrev pub backoff_base : ℕ → ℕ
backoff_base attempt = min (2 ^ attempt * 1_000_000) 30_000_000

module _ (http : Http) where
  unfoldable pub backoff_delay : ℕ → ℕ → Option ℕ → ℕ
  backoff_delay call attempt (some retry_after) = min retry_after 60_000_000
  backoff_delay call attempt none = http.jitter call (backoff_base attempt)

  -- The sleep before the next attempt, where there is one.
  unfoldable pub pause : ℕ → ℕ → Option ℕ → ClientState → ClientState
  unfolding backoff_delay
  pause zero attempt retry_after s = s
  pause (suc left) attempt retry_after s = record s {
    slept = s.slept + backoff_delay s.calls attempt retry_after;
  }

  abbrev pub after_success : ClientState → ClientState
  after_success s = record s { breaker = record_success s.breaker; calls = s.calls + 1 }

  abbrev pub after_failure : ClientState → ClientState
  after_failure s = record s {
    breaker = record_failure (http.moment s.calls) s.breaker;
    calls = s.calls + 1;
  }

  abbrev pub network_error : ApiError
  network_error = record {
    status_code = 0;
    meta_code = none;
    message = http.network_message;
    retryable = true;
    retry_after = none;
  }

  -- The exception leaves the loop before the breaker hears of the call.
  abbrev pub after_crash : ClientState → ClientState
  after_crash s = record s { calls = s.calls + 1 }

  -- One round of the loop over the attempts: the answer to the next call decides, or the error is
  -- kept for the rounds that are left.
  unfoldable pub round :
      (ℕ → ApiError → ClientState → Outcome × ClientState)
      → ℕ
      → Answer
      → ClientState
      → Outcome × ClientState
  round next attempt (success message_id wa_id) s = (answered message_id wa_id, after_success s)
  round next attempt unreadable s = (crashed, after_crash s)
  round next attempt no_response s = next attempt network_error (after_failure s)
  round next attempt (refusal r) s =
      let e = map_error http.default_message r in
      if e.retryable then next attempt e (after_failure s) else (failed e, after_success s)

  -- The attempts that are left, after a last error.
  unfoldable pub attempts : ℕ → ℕ → ApiError → ClientState → Outcome × ClientState
  attempts zero attempt last s = (failed last, s)
  attempts (suc left) attempt last s =
      round (λ attempt e s'. attempts left (attempt + 1) e (pause left attempt e.retry_after s'))
        attempt (http.answer s.calls) s

  -- `error` is raised after no attempt at all, which the loop excludes: there is always one more
  -- attempt than retries.
  unfoldable pub request : ℕ → ClientState → Outcome × ClientState
  request max_retries s =
      if is_open s.breaker (http.before s.calls)
      then (circuit_open, s)
      else attempts (suc max_retries) 0 network_error s
