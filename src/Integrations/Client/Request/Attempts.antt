-- ===== src/Integrations/Client/Request/Attempts.antt =====
-- How often a request calls the API, and which answer it returns.
use whatsapp_bot.Prelude.{
  ℕ, zero, suc, ◌+◌, ◌≤◌, ◌≡◌, refl, Bool, true, false, Option, inl, inr, Bool-cases, arith,
  if◌then◌else◌, sym,
}
use whatsapp_bot.Integrations.Client.Breaker.{is_open}
use whatsapp_bot.Integrations.Client.Request.{
  Http, ApiError, Answer, success, no_response, refusal, unreadable, crashed, after_crash,
  ClientState, Outcome, answered, failed, circuit_open, map_error, network_error, after_failure,
  after_success, pause, round, attempts, request,
}

module _ (http : Http) where
  -- An answer after which the client tries again.
  abbrev pub is_transient : Answer → Bool
  is_transient no_response = true
  is_transient (success _ _) = false
  is_transient unreadable = false
  is_transient (refusal r) = (map_error http.default_message r).retryable

  -- What the caller gets where the loop ends with this answer.
  abbrev pub outcome_of : Answer → Outcome
  outcome_of no_response = failed (network_error http)
  outcome_of (success message_id wa_id) = answered message_id wa_id
  outcome_of unreadable = crashed
  outcome_of (refusal r) = failed (map_error http.default_message r)

  -- The number of the call that decides: the first that is not transient, or the last attempt.
  abbrev pub deciding : ℕ → ℕ → ℕ
  deciding zero call = call
  deciding (suc left) call =
      let later = deciding left (call + 1) in
      if is_transient (http.answer call) then later else call

  deciding_bounds :
      (left call : ℕ) → (call ≤ deciding left call) × (deciding left call ≤ call + left)
  deciding_bounds zero call = omega arith
  deciding_bounds (suc left) call = ground (arith, deciding_bounds left (call + 1))

  calls-pause :
      (left attempt : ℕ) (retry_after : Option ℕ) (s : ClientState)
      → (pause http left attempt retry_after s).calls ≡ s.calls
  unfolding pause
  calls-pause zero attempt retry_after s = refl
  calls-pause (suc left) attempt retry_after s = refl

  abbrev pub error_of : Answer → ApiError
  error_of no_response = network_error http
  error_of (success _ _) = network_error http
  error_of unreadable = network_error http
  error_of (refusal r) = map_error http.default_message r

  pub round-transient :
      (next : ℕ → ApiError → ClientState → Outcome × ClientState) (attempt : ℕ) (a : Answer)
      (s : ClientState)
      → is_transient a ≡ true
      → round http next attempt a s ≡ next attempt (error_of a) (after_failure http s)
  unfolding round
  round-transient next attempt no_response s t = refl
  round-transient next attempt (success m c) s t = cc
  round-transient next attempt unreadable s t = cc
  round-transient next attempt (refusal r) s t = rw t refl

  -- The client after the answer that ends the loop.
  abbrev pub after_final : Answer → ClientState → ClientState
  after_final unreadable s = after_crash http s
  after_final a s = after_success http s

  pub calls-after_final : (a : Answer) (s : ClientState) → (after_final a s).calls ≡ s.calls + 1
  calls-after_final unreadable s = refl
  calls-after_final no_response s = refl
  calls-after_final (success m c) s = refl
  calls-after_final (refusal r) s = refl

  pub slept-after_final : (a : Answer) (s : ClientState) → (after_final a s).slept ≡ s.slept
  slept-after_final unreadable s = refl
  slept-after_final no_response s = refl
  slept-after_final (success m c) s = refl
  slept-after_final (refusal r) s = refl

  pub round-final :
      (next : ℕ → ApiError → ClientState → Outcome × ClientState) (attempt : ℕ) (a : Answer)
      (s : ClientState)
      → is_transient a ≡ false
      → round http next attempt a s ≡ (outcome_of a, after_final a s)
  unfolding round
  round-final next attempt no_response s t = cc
  round-final next attempt (success m c) s t = refl
  round-final next attempt unreadable s t = refl
  round-final next attempt (refusal r) s t = rw t refl

  outcome_of-transient : (a : Answer) → is_transient a ≡ true → outcome_of a ≡ failed (error_of a)
  outcome_of-transient no_response t = refl
  outcome_of-transient (success m c) t = cc
  outcome_of-transient unreadable t = cc
  outcome_of-transient (refusal r) t = refl

  -- What the attempts return and how many calls they make.
  abbrev Decides : ℕ → ℕ → Outcome × ClientState → Type 0
  Decides left call r =
      (r.0 ≡ outcome_of (http.answer (deciding left call))) × (r.1.calls ≡ deciding left call + 1)

  attempts-Decides :
      (left attempt : ℕ) (last : ApiError) (s : ClientState)
      → Decides left s.calls (attempts http (suc left) attempt last s)
  unfolding attempts pause
  attempts-Decides zero attempt last s = elim (Bool-cases (is_transient (http.answer s.calls))) [
    | inl again ↦
        rw (round-transient _ attempt (http.answer s.calls) s again)
          (sym (outcome_of-transient (http.answer s.calls) again), refl)
    | inr final ↦
        rw (round-final _ attempt (http.answer s.calls) s final)
          (refl, calls-after_final (http.answer s.calls) s)
  ]
  attempts-Decides (suc left) attempt last s =
      elim (Bool-cases (is_transient (http.answer s.calls))) [
        | inl again ↦
            let s' =
              pause http (suc left) attempt (error_of (http.answer s.calls)).retry_after
                (after_failure http s) in
            rw (round-transient _ attempt (http.answer s.calls) s again, again)
              (attempts-Decides left (attempt + 1) (error_of (http.answer s.calls)) s')
        | inr final ↦
            rw (round-final _ attempt (http.answer s.calls) s final, final)
              (refl, calls-after_final (http.answer s.calls) s)
      ]

  -- With a closed breaker a request calls the API again exactly while the answers are transient, at
  -- most one more time than the retries: it returns what the first answer that is not transient
  -- says, a permanent error at once, or else the last attempt's error.
  pub request-Decides :
      (max_retries : ℕ) (s : ClientState)
      → is_open s.breaker (http.before s.calls) ≡ false
      → let after = request http max_retries s in
        let k = deciding max_retries s.calls in
        (after.0 ≡ outcome_of (http.answer k))
        × (after.1.calls ≡ k + 1)
        × (k ≤ s.calls + max_retries)
  unfolding request
  request-Decides max_retries s closed = rw closed (
      let (o, c) = attempts-Decides max_retries 0 (network_error http) s in
      (o, c, (deciding_bounds max_retries s.calls).1))

  -- With an open breaker a request calls nothing and changes nothing.
  pub request-circuit_open :
      (max_retries : ℕ) (s : ClientState)
      → is_open s.breaker (http.before s.calls) ≡ true
      → request http max_retries s ≡ (circuit_open, s)
  unfolding request
  request-circuit_open max_retries s opened = rw opened refl
