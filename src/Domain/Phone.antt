-- ===== src/Domain/Phone.antt =====
-- app/domain/phone.py, and `mask_phone` of app/core/redaction.py.
pub mod Mask
use Prim.Native.Char.{code}
use whatsapp_bot.Prelude.{
  ℕ, zero, suc, ◌-◌, String, Bool, true, false, Option, none, some, [], ◌∷◌, max, clip, text_length,
  joined, strip_of, is_blank, ltb, not, ◌==◌, ◌&&◌, nat_eq, if◌then◌else◌,
}

-- A validated number in the forms that the program uses.
pub record NormalisedPhone : Type 0 where
  pub e164 : String
  pub hash : String
  pub masked : String
  pub country_code : ℕ
  pub region : Option String

-- What the module takes from Python (`str.strip`, `str.isdigit`), from `hmac`, and from the
-- `phonenumbers` library, whose parser raises or returns a number.
pub record PhoneLibrary (Number : Type 0) : Type 0 where
  pub is_space : ℕ → Bool
  pub is_digit : ℕ → Bool
  pub hmac_sha256 : String → String → String
  pub parse : String → Option String → Option Number
  pub is_possible_number : Number → Bool
  pub is_valid_number : Number → Bool
  pub format_e164 : Number → String
  pub country_code : Number → Option ℕ
  pub region_code : Number → Option String

-- `text[start:]`
abbrev pub from : ℕ → String → String
from zero s = s
from (suc n) String.[] = String.[]
from (suc n) (String.◌∷◌ c s) = from n s

abbrev pub stars : ℕ → String
stars zero = String.[]
stars (suc n) = String.◌∷◌ "*" (stars n)

abbrev pub starts_with_plus : String → Bool
starts_with_plus String.[] = false
starts_with_plus (String.◌∷◌ c s) = code c == b'+'

abbrev pub or_zero : Option ℕ → ℕ
or_zero none = 0
or_zero (some n) = n

-- The characters that a test accepts.
abbrev pub only : (ℕ → Bool) → String → String
only keeps String.[] = String.[]
only keeps (String.◌∷◌ c s) =
    let rest = only keeps s in if keeps (code c) then String.◌∷◌ c rest else rest

-- Every character of a text that is not empty.
abbrev pub each : (ℕ → Bool) → String → Bool
each keeps String.[] = true
each keeps (String.◌∷◌ c s) = keeps (code c) && each keeps s

module _ {Number : Type 0} (lib : PhoneLibrary Number) where
  abbrev pub masked_digits : String → String → String
  masked_digits value digits =
      if ltb (text_length digits) 5
      then stars (text_length digits)
      else joined (
          (if starts_with_plus (strip_of lib.is_space value) then "+" else "")
          ∷ clip 2 digits
          ∷ stars (max 1 (text_length digits - 4))
          ∷ from (text_length digits - 2) digits
          ∷ [])

  unfoldable pub mask_phone : String → String
  mask_phone value = if is_blank value then "" else masked_digits value (only lib.is_digit value)

  abbrev pub hash_phone : String → String → String
  hash_phone e164 key = lib.hmac_sha256 key e164

  -- Meta sends numbers without a plus.
  abbrev pub candidate_of : Option String → String → String
  candidate_of (some region) text = text
  candidate_of none text =
      if not (starts_with_plus text) && not (is_blank text) && each lib.is_digit text
      then joined ("+" ∷ text ∷ [])
      else text

  abbrev pub checked_number : String → Option Number → Option NormalisedPhone
  checked_number key none = none
  checked_number key (some parsed) =
      if not (lib.is_possible_number parsed)
      then none
      else if not (lib.is_valid_number parsed)
      then none
      else some (record {
        e164 = lib.format_e164 parsed;
        hash = hash_phone (lib.format_e164 parsed) key;
        masked = mask_phone (lib.format_e164 parsed);
        country_code = or_zero (lib.country_code parsed);
        region = lib.region_code parsed;
      })

  -- `none` is a `ValidationError`.
  unfoldable pub normalise_phone : String → Option String → String → Option NormalisedPhone
  unfolding mask_phone
  normalise_phone key default_region raw =
      let text = strip_of lib.is_space raw in
      if is_blank text
      then none
      else checked_number key (lib.parse (candidate_of default_region text) default_region)
