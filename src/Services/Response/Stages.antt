-- ===== src/Services/Response/Stages.antt =====
-- The stages of `compose`, in their order, and what each says of the reply.
use whatsapp_bot.Prelude.{
  or-false, is_blank, ℕ, ◌<◌, ◌≡◌, refl, String, Bool, true, false, not, ◌&&◌, ◌||◌, ltb, leb, ◌==◌,
  nat_eq, if-cases, arith,
}
use whatsapp_bot.Domain.Enums.{Intent, EscalationReason, intent_eq}
use whatsapp_bot.Domain.Config.{BusinessConfig, BotConfig}
use whatsapp_bot.Domain.Schemas.{
  IntentResult, RetrievalResult, BotReply, has_context, is_empty_list,
}
use whatsapp_bot.Domain.Rules.Handover.{should_escalate}
use whatsapp_bot.Services.Response.Sanitise.{TextHost, strip}
use whatsapp_bot.Services.Response.Compose.{
  answer, handover, grounding_required, is_consequential, tidy, unanswered, model_answer,
  compose_open, compose,
}

-- What the model's own answer stands on.
pub record IsTrusted (bot : BotConfig) (r : IntentResult) (retrieval : RetrievalResult)
    (llm_failed : Bool) : Type 0 where
  pub reachable : llm_failed ≡ false
  pub unflagged : is_empty_list r.safety_flags ≡ true
  pub not_human : (r.requires_human || r.intent == Intent.human_agent_request) ≡ false
  pub not_fixed :
      (is_consequential r.intent || r.intent == Intent.opt_out || r.intent == Intent.opt_in) ≡ false
  pub confident : leb bot.thresholds.reply r.confidence ≡ true
  pub above : leb bot.thresholds.escalate r.confidence ≡ true
  pub grounded :
      (not (grounding_required r.intent) || has_context retrieval && not (is_empty_list r.sources))
      ≡ true

-- The escalation rule on a result after a number of failures.
abbrev pub must_escalate : BotConfig → ℕ → IntentResult → Bool
must_escalate bot failures r =
    should_escalate r.intent r.confidence bot failures (not (is_empty_list r.safety_flags))

-- The intents that are answered by fixed text without a human.
abbrev pub is_fixed : Intent → Bool
is_fixed i = i == Intent.opt_out || i == Intent.opt_in || i == Intent.greeting

-- A result of such an intent, without a safety flag.
abbrev pub is_exempt : IntentResult → Bool
is_exempt r = is_empty_list r.safety_flags && is_fixed r.intent

module _ (host : TextHost) (business : BusinessConfig) (bot : BotConfig) (r : IntentResult)
    (retrieval : RetrievalResult) (now : ℕ) (llm_failed : Bool) where
  -- The replies that `compose` gives: one of fixed text that hands over, one of fixed text that
  -- does not, or the model's answer.
  pub data Stage : BotReply → Type 0 where
    hands_over :
        (text : String) (i : Intent) (c : ℕ) (reason : EscalationReason) (pause : Bool)
        → Stage (handover (tidy host business bot text) i c reason pause)
    answers :
        (text : String) (i : Intent) (c : ℕ)
        → ((failures : ℕ)
            → failures < 3
            → (is_exempt r || not (must_escalate bot failures r)) ≡ true)
        → Stage (answer (tidy host business bot text) i c)
    trusts : IsTrusted bot r retrieval llm_failed → Stage (model_answer host business bot r now)

  exempt :
      is_exempt r ≡ true
      → (failures : ℕ) → failures < 3
      → (is_exempt r || not (must_escalate bot failures r)) ≡ true
  exempt h failures few = rw h refl

  unescalated :
      is_empty_list r.safety_flags ≡ true
      → (r.intent == Intent.human_agent_request) ≡ false
      → is_consequential r.intent ≡ false
      → ltb r.confidence bot.thresholds.escalate ≡ false
      → (failures : ℕ) → failures < 3
      → must_escalate bot failures r ≡ false
  unfolding should_escalate
  unescalated flags human consequential confident failures few = ground arith

  trusted :
      llm_failed ≡ false
      → is_empty_list r.safety_flags ≡ true
      → (r.intent == Intent.human_agent_request) ≡ false
      → is_consequential r.intent ≡ false
      → (r.intent == Intent.opt_out) ≡ false
      → (r.intent == Intent.opt_in) ≡ false
      → (ltb r.confidence bot.thresholds.escalate || r.requires_human) ≡ false
      → ltb r.confidence bot.thresholds.reply ≡ false
      → (grounding_required r.intent
          && not (has_context retrieval && not (is_empty_list r.sources)))
        ≡ false
      → IsTrusted bot r retrieval llm_failed
  trusted reached flags human consequential out in_ enough confident grounded = record {
    reachable = reached;
    unflagged = flags;
    not_human = ground arith;
    not_fixed = ground arith;
    confident = ground arith;
    above = ground arith;
    grounded = ground arith;
  }

  settled :
      ((failures : ℕ) → failures < 3 → must_escalate bot failures r ≡ false)
      → (failures : ℕ) → failures < 3
      → (is_exempt r || not (must_escalate bot failures r)) ≡ true
  settled safe failures few = ground (arith, safe failures few)

  compose_open-Stage :
      llm_failed ≡ false
      → is_empty_list r.safety_flags ≡ true
      → (r.intent == Intent.human_agent_request) ≡ false
      → is_consequential r.intent ≡ false
      → (r.intent == Intent.opt_out) ≡ false
      → (r.intent == Intent.opt_in) ≡ false
      → Stage (compose_open host business bot r retrieval now)
  unfolding compose_open
  compose_open-Stage reached flags human consequential out in_ =
      if-cases Stage _ (λ low. hands_over _ _ _ _ _)
        (λ enough.
          if-cases Stage _
            (λ unsure.
              answers _ _ _
                (settled (unescalated flags human consequential (or-false _ _ enough).0)))
            (λ confident.
              if-cases Stage _ (λ ungrounded. hands_over _ _ _ _ _)
                (λ grounded.
                  if-cases Stage (is_blank (tidy host business bot r.proposed_response))
                    {x = unanswered host business bot r EscalationReason.no_knowledge}
                    (λ empty. hands_over _ _ _ _ _)
                    (λ said. trusts (
                      trusted reached flags human consequential out in_ enough confident
                        grounded)))))

  -- Every reply is of one of the three kinds.
  pub compose-Stage : Stage (compose host business bot r retrieval now llm_failed)
  unfolding compose
  compose-Stage =
      if-cases Stage _ (λ failed. hands_over _ _ _ _ _)
        (λ reached.
          if-cases Stage (not (is_empty_list r.safety_flags)) (λ flagged. hands_over _ _ _ _ _)
            (λ unflagged.
              if-cases Stage _ (λ out. answers _ _ _ (exempt (ground arith)))
                (λ not_out.
                  if-cases Stage _ (λ in_. answers _ _ _ (exempt (ground arith)))
                    (λ not_in.
                      if-cases Stage _ (λ human. hands_over _ _ _ _ _)
                        (λ not_human.
                          if-cases Stage _ (λ asks. hands_over _ _ _ _ _)
                            (λ no_ask.
                              if-cases Stage
                                (r.intent == Intent.greeting
                                  && is_blank (strip host r.proposed_response))
                                (λ greets. answers _ _ _ (exempt (ground arith)))
                                (λ other.
                                  compose_open-Stage reached (ground arith) not_human no_ask not_out
                                    not_in)))))))

  -- What each stage says of the answers of the model.
  Stage-IsTrusted :
      (reply : BotReply)
      → Stage reply
      → reply.deterministic ≡ false
      → IsTrusted bot r retrieval llm_failed
        × (reply.sources ≡ r.sources)
        × (reply.escalate ≡ false)
  Stage-IsTrusted _ (hands_over text i c reason pause) free = absurd cc
  Stage-IsTrusted _ (answers text i c h) free = absurd cc
  Stage-IsTrusted _ (trusts t) free = (t, refl, refl)

  IsTrusted-settled :
      IsTrusted bot r retrieval llm_failed
      → (failures : ℕ) → failures < 3
      → must_escalate bot failures r ≡ false
  unfolding should_escalate
  IsTrusted-settled t failures few =
      let u = t.unflagged in
      let h = t.not_human in let f = t.not_fixed in let a = t.above in ground arith

  Stage-escalates :
      (failures : ℕ) (reply : BotReply)
      → Stage reply
      → failures < 3
      → is_exempt r ≡ false
      → must_escalate bot failures r ≡ true
      → reply.escalate ≡ true
  Stage-escalates failures _ (hands_over text i c reason pause) few named due = refl
  Stage-escalates failures _ (answers text i c h) few named due =
      let safe = h failures few in absurd cc
  Stage-escalates failures _ (trusts t) few named due =
      let safe = IsTrusted-settled t failures few in absurd cc

  -- Where a reply is not fixed text, the model did not fail; the result has no safety flag, asks for
  -- no human, and its intent is none of those with a fixed reply; its confidence reaches both
  -- thresholds; and a factual intent has retrieved knowledge and named sources. The sources of the
  -- reply are those of the result, and it hands over to nobody.
  pub compose-IsTrusted :
      (compose host business bot r retrieval now llm_failed).deterministic ≡ false
      → IsTrusted bot r retrieval llm_failed
        × ((compose host business bot r retrieval now llm_failed).sources ≡ r.sources)
        × ((compose host business bot r retrieval now llm_failed).escalate ≡ false)
  compose-IsTrusted free = Stage-IsTrusted _ compose-Stage free

  -- Where `should_escalate` sends a result to a human after fewer than three failures, `compose`
  -- hands it over, unless the result has no safety flag and its intent is an opt-out, an opt-in or
  -- a greeting. (`compose` is not told the number of failures, so it does not act on a third.)
  pub compose-should_escalate :
      (failures : ℕ)
      → failures < 3
      → (is_empty_list r.safety_flags && is_fixed r.intent) ≡ false
      → should_escalate r.intent r.confidence bot failures (not (is_empty_list r.safety_flags))
        ≡ true
      → (compose host business bot r retrieval now llm_failed).escalate ≡ true
  compose-should_escalate failures few named due =
      Stage-escalates failures _ compose-Stage few named due
