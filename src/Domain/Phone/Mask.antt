-- ===== src/Domain/Phone/Mask.antt =====
-- What a mask shows of a number.
use Prim.Native.String.{◌++◌}
use Prim.Native.String.append
use Prim.Native.Char.{code}
use whatsapp_bot.Prelude.{
  ℕ, zero, suc, ◌+◌, ◌-◌, ◌≡◌, ◌≤◌, ap, String, Bool, true, false, [], ◌∷◌, max, ltb, if◌then◌else◌,
  clip, text_length, joined, strip_of, is_blank, if-cases, arith,
}
use whatsapp_bot.Domain.Phone.{
  PhoneLibrary, from, stars, starts_with_plus, only, masked_digits, mask_phone,
}

-- How many characters of a text a test accepts.
abbrev pub shown : (ℕ → Bool) → String → ℕ
shown p String.[] = 0
shown p (String.◌∷◌ c s) = (if p (code c) then 1 else 0) + shown p s

shown-append : (p : ℕ → Bool) (s t : String) → shown p (s ++ t) ≡ shown p s + shown p t
shown-append p String.[] t = let whole = ap (shown p) (append.nil t) in omega (arith, whole)
shown-append p (String.◌∷◌ c s) t =
    let first = ap (shown p) (append.cons c s t) in omega (arith, first, shown-append p s t)

shown-clip : (p : ℕ → Bool) (n : ℕ) (s : String) → shown p (clip n s) ≤ n
shown-clip p zero s = omega arith
shown-clip p (suc n) String.[] = omega arith
shown-clip p (suc n) (String.◌∷◌ c s) = ground (arith, shown-clip p n s)

shown-all : (p : ℕ → Bool) (s : String) → shown p s ≤ text_length s
shown-all p String.[] = omega arith
shown-all p (String.◌∷◌ c s) = ground (arith, shown-all p s)

shown-from : (p : ℕ → Bool) (n : ℕ) (s : String) → shown p (from n s) ≤ text_length s - n
shown-from p zero s = omega (arith, shown-all p s)
shown-from p (suc n) String.[] = omega arith
shown-from p (suc n) (String.◌∷◌ c s) = omega (arith, shown-from p n s)

shown-stars : (p : ℕ → Bool) → p b'*' ≡ false → (n : ℕ) → shown p (stars n) ≡ 0
shown-stars p star zero = omega arith
shown-stars p star (suc n) = ground (arith, shown-stars p star n, star)

module _ {Number : Type 0} (lib : PhoneLibrary Number) (star : lib.is_digit b'*' ≡ false)
    (plus : lib.is_digit b'+' ≡ false) where
  shown-lead : (b : Bool) → shown lib.is_digit (if b then "+" else "") ≡ 0
  shown-lead true = ground (arith, plus)
  shown-lead false = omega arith

  shown-masked_digits :
      (value digits : String) → shown lib.is_digit (masked_digits lib value digits) ≤ 4
  shown-masked_digits value digits =
      let n = text_length digits in
      if-cases (λ t. shown lib.is_digit t ≤ 4) (ltb n 5)
        (λ _. omega (arith, shown-stars lib.is_digit star n))
        (λ long.
          let lead = if starts_with_plus (strip_of lib.is_space value) then "+" else "" in
          let hidden = stars (max 1 (n - 4)) in
          let last = from (n - 2) digits in
          let a = shown-append lib.is_digit lead (joined (clip 2 digits ∷ hidden ∷ last ∷ [])) in
          let b = shown-append lib.is_digit (clip 2 digits) (joined (hidden ∷ last ∷ [])) in
          let c = shown-append lib.is_digit hidden (joined (last ∷ [])) in
          let d = shown-append lib.is_digit last (joined []) in
          omega (
            arith,
            a,
            b,
            c,
            d,
            shown-lead (starts_with_plus (strip_of lib.is_space value)),
            shown-clip lib.is_digit 2 digits,
            shown-stars lib.is_digit star (max 1 (n - 4)),
            shown-from lib.is_digit (n - 2) digits,
          ))

  -- Where neither the star nor the plus is a digit, at most four characters of a masked number are
  -- digits, whatever the number.
  pub mask_phone-shown : (value : String) → shown lib.is_digit (mask_phone lib value) ≤ 4
  unfolding mask_phone
  mask_phone-shown value =
      if-cases (λ t. shown lib.is_digit t ≤ 4) (is_blank value) (λ _. omega arith)
        (λ _. shown-masked_digits value (only lib.is_digit value))
