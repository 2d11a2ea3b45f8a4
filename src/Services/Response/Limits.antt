-- ===== src/Services/Response/Limits.antt =====
-- The length of a reply.
use Prim.Native.String.{◌++◌}
use Prim.Native.Char.{code}
use Prim.Native.String.append
use whatsapp_bot.Prelude.{
  and-true, is_blank, rstrip_of, ℕ, zero, suc, ◌+◌, ◌*◌, ◌≡◌, ap, ◌≤◌, String, Bool, true, Option,
  none, some, ◌∷◌, [], not, ◌&&◌, leb, leb→le, ltb, if-cases, clip, joined, text_length,
  text_length-clip, arith,
}
use whatsapp_bot.Domain.Config.{BusinessConfig, BotConfig}
use whatsapp_bot.Domain.Schemas.{IntentResult, RetrievalResult, BotReply}
use whatsapp_bot.Services.Response.Sanitise.{
  TextHost, cut_at, clamped, cleaned, boundary_of, sanitise_reply,
}
use whatsapp_bot.Services.Response.Compose.{tidy, with_suffix, compose}
use whatsapp_bot.Services.Response.Fragments.{outside_hours_suffix}
use whatsapp_bot.Services.Response.Stages.{Stage, hands_over, answers, trusts, compose-Stage}

text_length-rstrip_of :
    (drops : ℕ → Bool) (s : String) → text_length (rstrip_of drops s) ≤ text_length s
text_length-rstrip_of drops String.[] = omega arith
text_length-rstrip_of drops (String.◌∷◌ c s) =
    let shorter = text_length-rstrip_of drops s in
    if-cases (λ t. text_length t ≤ suc (text_length s))
      (is_blank (rstrip_of drops s) && drops (code c)) (λ _. omega arith) (λ _. omega arith)

text_length-clip-own : (n : ℕ) (s : String) → text_length (clip n s) ≤ text_length s
text_length-clip-own zero s = omega arith
text_length-clip-own (suc n) String.[] = omega arith
text_length-clip-own (suc n) (String.◌∷◌ c s) = omega (arith, text_length-clip-own n s)

text_length-append : (s t : String) → text_length (s ++ t) ≡ text_length s + text_length t
text_length-append String.[] t = let whole = ap text_length (append.nil t) in omega (arith, whole)
text_length-append (String.◌∷◌ c s) t =
    let first = ap text_length (append.cons c s t) in omega (arith, first, text_length-append s t)

module _ (host : TextHost) where
  text_length-cut_at :
      (max_chars : ℕ) (window : String) (boundary : Option ℕ)
      → text_length (cut_at host max_chars window boundary) ≤ text_length window
  text_length-cut_at max_chars window none = text_length-rstrip_of host.is_space window
  text_length-cut_at max_chars window (some b) =
      if-cases (λ t. text_length t ≤ text_length window) (ltb max_chars (2 * b))
        (λ _. text_length-clip-own (b + 1) window) (λ _. text_length-rstrip_of host.is_space window)

  text_length-sanitise_reply :
      (max_chars : ℕ) (text : String) → text_length (sanitise_reply host max_chars text) ≤ max_chars
  unfolding sanitise_reply clamped
  text_length-sanitise_reply max_chars text =
      if-cases (λ t. text_length t ≤ max_chars) (ltb max_chars (text_length (cleaned host text)))
        (λ _.
          let window = clip max_chars (cleaned host text) in
          omega (
            arith,
            text_length-cut_at max_chars window (boundary_of window),
            text_length-clip max_chars (cleaned host text),
          ))
        (λ fits. ground arith)

module _ (host : TextHost) (business : BusinessConfig) (bot : BotConfig) where
  suffix_fits :
      (suffix text : String)
      → leb (text_length text + text_length suffix) bot.max_response_chars ≡ true
      → text_length (joined (text ∷ suffix ∷ [])) ≤ bot.max_response_chars
  suffix_fits suffix text fits =
      let whole = text_length-append text (joined (suffix ∷ [])) in
      let tail = text_length-append suffix (joined []) in
      let le = leb→le _ _ fits in omega (arith, whole, tail, le)

  text_length-with_suffix :
      (suffix text : String)
      → text_length text ≤ bot.max_response_chars
      → text_length (with_suffix host business bot suffix text) ≤ bot.max_response_chars
  text_length-with_suffix suffix text short =
      if-cases (λ t. text_length t ≤ bot.max_response_chars)
        (not (is_blank suffix)
          && leb (text_length text + text_length suffix) bot.max_response_chars)
        (λ fits. suffix_fits suffix text (and-true _ _ fits).1) (λ _. short)

  text_length-tidy :
      (text : String) → text_length (tidy host business bot text) ≤ bot.max_response_chars
  text_length-tidy text = text_length-sanitise_reply host bot.max_response_chars text

  module _ (r : IntentResult) (retrieval : RetrievalResult) (now : ℕ) (llm_failed : Bool) where
    Stage-text_length :
        (reply : BotReply)
        → Stage host business bot r retrieval now llm_failed reply
        → text_length reply.text ≤ bot.max_response_chars
    Stage-text_length _ (hands_over text i c reason pause) = text_length-tidy text
    Stage-text_length _ (answers text i c h) = text_length-tidy text
    Stage-text_length _ (trusts t) =
        text_length-with_suffix (outside_hours_suffix host business bot now) _
          (text_length-tidy r.proposed_response)

    -- Whatever the model proposed and whatever the configured texts are, a reply is at most
    -- `max_response_chars` long, the sentence about opening hours included.
    pub text_length-compose :
        text_length (compose host business bot r retrieval now llm_failed).text
        ≤ bot.max_response_chars
    text_length-compose =
        Stage-text_length _ (compose-Stage host business bot r retrieval now llm_failed)
