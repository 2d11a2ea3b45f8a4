-- ===== src/Domain/Schemas.antt =====
-- app/domain/schemas.py: what the model proposes, what retrieval finds, and what is sent. The free
-- fields that no modelled code reads (`requested_action`, `entities`, `buttons`) are left out.
use whatsapp_bot.Prelude.{
  ℕ, ◌+◌, String, Bool, true, false, Option, List, [], ◌∷◌, map, min, not, ltb, joined, text_length,
  string_eq, if◌then◌else◌,
}
use whatsapp_bot.Domain.Enums.{Intent, SafetyFlag, EscalationReason, safety_flag_eq}

pub record IntentResult : Type 0 where
  pub intent : Intent
  pub confidence : ℕ
  pub missing_information : List String
  pub proposed_response : String
  pub requires_human : Bool
  pub safety_flags : List SafetyFlag
  pub sources : List String

-- A number of the model's output, which may be negative, or anything else that no number parses
-- from.
pub data RawNumber : Type 0 where
  positive negative : ℕ → RawNumber
  unparsed : RawNumber

-- `_clamp_confidence`
unfoldable pub clamp_confidence : RawNumber → ℕ
clamp_confidence (positive n) = min 1_000_000 n
clamp_confidence (negative n) = 0
clamp_confidence unparsed = 0

abbrev pub is_empty_list {ℓ} : {A : Type ℓ} → List A → Bool
is_empty_list [] = true
is_empty_list (_ ∷ _) = false

-- `_safety_forces_human`
unfoldable pub safety_forces_human : IntentResult → IntentResult
safety_forces_human r =
    if is_empty_list r.safety_flags then r else record r { requires_human = true }

pub record KnowledgeChunk : Type 0 where
  pub chunk_id : String
  pub title : String
  pub text : String

-- A hit is its chunk; scores only order the hits.
pub record RetrievalResult : Type 0 where
  pub query : String
  pub hits : List KnowledgeChunk

abbrev pub has_context : RetrievalResult → Bool
has_context r = not (is_empty_list r.hits)

abbrev pub source_ids : RetrievalResult → List String
source_ids r = map (λ h. h.chunk_id) r.hits

abbrev pub context_entry : KnowledgeChunk → String
context_entry c = joined ("[" ∷ c.chunk_id ∷ "] " ∷ c.title ∷ "\n" ∷ c.text ∷ [])

-- The entries that fit, up to the first that does not.
abbrev pub fitting : ℕ → ℕ → List KnowledgeChunk → List String
fitting max_chars used [] = []
fitting max_chars used (c ∷ hits) =
    let rest = fitting max_chars (used + text_length (context_entry c)) hits in
    if ltb max_chars (used + text_length (context_entry c)) then [] else context_entry c ∷ rest

abbrev pub paragraphs : List String → String
paragraphs [] = ""
paragraphs (s ∷ []) = s
paragraphs (s ∷ t ∷ rest) = joined (s ∷ "\n\n" ∷ paragraphs (t ∷ rest) ∷ [])

unfoldable pub as_context_block : ℕ → RetrievalResult → String
as_context_block max_chars r = paragraphs (fitting max_chars 0 r.hits)

pub record BotReply : Type 0 where
  pub text : String
  pub intent : Intent
  pub confidence : ℕ
  pub escalate : Bool
  pub escalation_reason : Option EscalationReason
  pub pause_bot : Bool
  pub sources : List String
  pub deterministic : Bool
  pub suppress_send : Bool
