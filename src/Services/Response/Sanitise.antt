-- ===== src/Services/Response/Sanitise.antt =====
-- `sanitise_reply` of app/services/response_service.py.
use Prim.Native.Char.{code}
use whatsapp_bot.Prelude.{
  rstrip_of, strip_of, ℕ, ◌+◌, ◌*◌, String, Bool, false, Option, none, some, List, [], ◌∷◌, max,
  clip, text_length, ltb, ◌==◌, nat_eq, ◌&&◌, if◌then◌else◌,
}

-- The flags of a pattern of `re`.
pub data Flags : Type 0 where
  plain ignore_case multiline : Flags

-- What the service takes from Python: the spaces that `str.strip` removes, `str.lower`, and
-- `re.sub` of a pattern by a replacement in a text.
pub record TextHost : Type 0 where
  pub is_space : ℕ → Bool
  pub lower : String → String
  pub sub : Flags → String → String → String → String

abbrev pub starts_with_space : String → Bool
starts_with_space String.[] = false
starts_with_space (String.◌∷◌ c s) = code c == b' '

-- `text.rfind` of a mark and a space: the last place, if there is one.
abbrev pub rfind_mark : ℕ → String → Option ℕ
rfind_mark mark String.[] = none
rfind_mark mark (String.◌∷◌ c s) = elim (rfind_mark mark s) [
  | some i ↦ some (i + 1)
  | none ↦ if code c == mark && starts_with_space s then some 0 else none
]

-- `max` of two places, of which `none` is -1
abbrev pub later : Option ℕ → Option ℕ → Option ℕ
later none j = j
later (some i) none = some i
later (some i) (some j) = some (max i j)

abbrev pub boundary_of : String → Option ℕ
boundary_of window =
    later (later (rfind_mark b'.' window) (rfind_mark b'!' window)) (rfind_mark b'?' window)

-- `_LEAK_PATTERNS`
abbrev pub leak_patterns : List String
leak_patterns =
    "BUSINESS KNOWLEDGE" ∷ "CUSTOMER MESSAGE:" ∷ "system prompt" ∷ "\\bchunk[_ ]?id\\b"
    ∷ "\\bapi[_ ]?key\\b" ∷ "\\baccess[_ ]?token\\b" ∷ "\\bapp[_ ]?secret\\b"
    ∷ "\\bEA[A-Za-z0-9]{20,}\\b" ∷ "\\[(?:svc|faq|policy|file):[^\\]]*\\]" ∷ []

-- `_MARKDOWN_RE`
abbrev pub markdown_pattern : String
markdown_pattern = "(\\*\\*|__|`{1,3}|^#{1,6}\\s*)"

module _ (host : TextHost) where
  abbrev pub strip : String → String
  strip text = strip_of host.is_space text

  abbrev pub without : List String → String → String
  without [] text = text
  without (pattern ∷ rest) text = without rest (host.sub ignore_case pattern "" text)

  unfoldable pub cleaned : String → String
  cleaned text = strip (
      host.sub plain "[ \\t]{2,}" " " (
        host.sub plain "\\n{3,}" "\n\n"
          (host.sub multiline markdown_pattern "" (without leak_patterns (strip text)))))

  -- Up to and with the mark that ends the last sentence, if that is past the middle.
  abbrev pub cut_at : ℕ → String → Option ℕ → String
  cut_at max_chars window none = rstrip_of host.is_space window
  cut_at max_chars window (some boundary) =
      if ltb max_chars (2 * boundary)
      then clip (boundary + 1) window
      else rstrip_of host.is_space window

  unfoldable pub clamped : ℕ → String → String
  clamped max_chars text =
      if ltb max_chars (text_length text)
      then cut_at max_chars (clip max_chars text) (boundary_of (clip max_chars text))
      else text

  unfoldable pub sanitise_reply : ℕ → String → String
  unfolding cleaned clamped
  sanitise_reply max_chars text = clamped max_chars (cleaned text)
