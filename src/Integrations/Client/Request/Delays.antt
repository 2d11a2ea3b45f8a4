-- ===== src/Integrations/Client/Request/Delays.antt =====
-- How long a request sleeps.
use whatsapp_bot.Prelude.{
  ℕ, zero, suc, ◌+◌, ◌*◌, ◌≤◌, Option, none, some, arith, Bool-cases, inl, inr,
}
use whatsapp_bot.Integrations.Client.Breaker.{is_open}
use whatsapp_bot.Integrations.Client.Request.{
  Http, ApiError, ClientState, network_error, backoff_base, backoff_delay, pause, attempts, request,
  after_failure,
}
use whatsapp_bot.Integrations.Client.Request.Attempts.{
  is_transient, error_of, round-transient, round-final, slept-after_final,
}

abbrev pub minute : ℕ
minute = 60_000_000

module _ (http : Http) (fair : (call base : ℕ) → http.jitter call base ≤ base) where
  backoff_delay-le :
      (call attempt : ℕ) (retry_after : Option ℕ)
      → backoff_delay http call attempt retry_after ≤ minute
  unfolding backoff_delay
  backoff_delay-le call attempt none = omega (arith, fair call (backoff_base attempt))
  backoff_delay-le call attempt (some r) = omega arith

  slept-attempts :
      (left attempt : ℕ) (last : ApiError) (s : ClientState)
      → (attempts http (suc left) attempt last s).1.slept ≤ s.slept + left * minute
  unfolding attempts pause
  slept-attempts zero attempt last s = elim (Bool-cases (is_transient http (http.answer s.calls))) [
    | inl again ↦ rw (round-transient http _ attempt (http.answer s.calls) s again) (omega arith)
    | inr final ↦
        rw (round-final http _ attempt (http.answer s.calls) s final)
          (omega (arith, slept-after_final http (http.answer s.calls) s))
  ]
  slept-attempts (suc left) attempt last s =
      elim (Bool-cases (is_transient http (http.answer s.calls))) [
        | inl again ↦
            let e = error_of http (http.answer s.calls) in
            let s' = pause http (suc left) attempt e.retry_after (after_failure http s) in
            rw (round-transient http _ attempt (http.answer s.calls) s again) (
              omega (
                arith,
                slept-attempts left (attempt + 1) e s',
                backoff_delay-le (s.calls + 1) attempt e.retry_after,
              ))
        | inr final ↦
            rw (round-final http _ attempt (http.answer s.calls) s final)
              (omega (arith, slept-after_final http (http.answer s.calls) s))
      ]

  -- Where the jitter is at most its bound, a request sleeps at most a minute for each retry.
  pub slept-request :
      (max_retries : ℕ) (s : ClientState)
      → (request http max_retries s).1.slept ≤ s.slept + max_retries * minute
  unfolding request
  slept-request max_retries s = elim (Bool-cases (is_open s.breaker (http.before s.calls))) [
    | inl opened ↦ rw opened (omega arith)
    | inr closed ↦ rw closed (slept-attempts max_retries 0 (network_error http) s)
  ]
