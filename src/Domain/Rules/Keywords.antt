-- ===== src/Domain/Rules/Keywords.antt =====
-- The keyword matching of app/domain/rules.py, over the code points of a text.
pub mod Laws
use whatsapp_bot.Prelude.{
  ℕ, ◌≡◌, String, Bool, true, false, Option, none, some, List, [], ◌∷◌, ◌||◌, ◌&&◌, not, length,
  leb, ◌==◌, nat_eq, where_, map, Text, codes, if◌then◌else◌,
}
use whatsapp_bot.Domain.Config.{BotConfig}

-- What the rules take from `unicodedata`, `str.lower` and the classes `\w` and `\s` of `re`.
pub record Unicode : Type 0 where
  pub normalize_nfkd : Text → Text
  pub combining : ℕ → Bool
  pub lower : Text → Text
  pub is_word : ℕ → Bool
  pub is_space : ℕ → Bool

-- `MAX_OPTOUT_WORDS`
abbrev pub max_optout_words : ℕ
max_optout_words = 4

abbrev pub is_empty : Text → Bool
is_empty [] = true
is_empty (_ ∷ _) = false

abbrev pub text_beq : Text → Text → Bool
text_beq [] [] = true
text_beq [] (_ ∷ _) = false
text_beq (_ ∷ _) [] = false
text_beq (a ∷ s) (b ∷ t) = a == b && text_beq s t

-- `_WS_RE.sub(" ", …)`; the flag says that the character before was a space.
abbrev pub collapse : (ℕ → Bool) → Bool → Text → Text
collapse is_space before [] = []
collapse is_space before (c ∷ cs) =
    let rest = collapse is_space (is_space c) cs in
    if is_space c then if before then rest else b' ' ∷ rest else c ∷ rest

-- `str.strip` once every space is `b' '`
abbrev pub lstrip : Text → Text
lstrip [] = []
lstrip (c ∷ cs) = let rest = lstrip cs in if c == b' ' then rest else c ∷ cs

abbrev pub rstrip : Text → Text
rstrip [] = []
rstrip (c ∷ cs) = let rest = rstrip cs in if is_empty rest && c == b' ' then [] else c ∷ rest

-- `str.split` on such a text, which holds no two spaces in a row
abbrev pub split : Text → List Text
split [] = []
split (c ∷ cs) =
    let rest = split cs in
    if c == b' ' then rest else elim cs [
      | [] ↦ (c ∷ []) ∷ []
      | d ∷ _ ↦
          if d == b' '
          then (c ∷ []) ∷ rest
          else elim rest [ [] ↦ (c ∷ []) ∷ [] | word ∷ words ↦ (c ∷ word) ∷ words ]
    ]

-- The candidate stands here and ends at a space or at the end of the text.
abbrev pub phrase_at : Text → Text → Bool
phrase_at [] [] = true
phrase_at [] (c ∷ _) = c == b' '
phrase_at (_ ∷ _) [] = false
phrase_at (k ∷ ks) (c ∷ cs) = k == c && phrase_at ks cs

-- `re.search(rf"(?:^|\s){re.escape(candidate)}(?:\s|$)", …)`; the flag says that the text begins
-- here or that the character before was a space.
unfoldable pub search_phrase : Text → Bool → Text → Bool
search_phrase candidate boundary [] = boundary && phrase_at candidate []
search_phrase candidate boundary (c ∷ cs) =
    boundary && phrase_at candidate (c ∷ cs) || search_phrase candidate (c == b' ') cs

-- The test of one keyword in `_matches_keyword`.
unfoldable pub is_command : Text → Text → Bool
is_command normalised candidate =
    not (is_empty candidate)
    && (text_beq normalised candidate
        || leb (length (split normalised)) max_optout_words
          && search_phrase candidate true normalised)

-- The test of one keyword in `detect_handover_request`.
unfoldable pub is_mentioned : Text → Text → Bool
is_mentioned normalised candidate =
    not (is_empty candidate) && search_phrase candidate true normalised

module _ (u : Unicode) where
  unfoldable pub normalise_keyword_text : Text → Text
  normalise_keyword_text text =
      if is_empty text
      then []
      else let without_marks = where_ (λ c. not (u.combining c)) (u.normalize_nfkd text) in
        let cleaned =
          map (λ c. if u.is_word c || u.is_space c then c else b' ') (u.lower without_marks) in
        rstrip (lstrip (collapse u.is_space false cleaned))

  -- The first keyword whose normal form passes the test; nothing matches an empty message.
  unfoldable pub first_keyword : (Text → Text → Bool) → Text → List String → Option String
  first_keyword test normalised [] = none
  first_keyword test normalised (keyword ∷ keywords) =
      if not (is_empty normalised) && test normalised (normalise_keyword_text (codes keyword))
      then some keyword
      else first_keyword test normalised keywords

  unfoldable pub detect_opt_out : String → BotConfig → Option String
  unfolding first_keyword is_command
  detect_opt_out text bot =
      first_keyword is_command (normalise_keyword_text (codes text)) bot.stop_words

  unfoldable pub detect_opt_in : String → BotConfig → Option String
  unfolding first_keyword is_command
  detect_opt_in text bot =
      first_keyword is_command (normalise_keyword_text (codes text)) bot.opt_in_keywords

  unfoldable pub detect_handover_request : String → BotConfig → Option String
  unfolding first_keyword is_mentioned
  detect_handover_request text bot =
      first_keyword is_mentioned (normalise_keyword_text (codes text)) bot.handover_keywords
