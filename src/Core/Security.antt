-- ===== src/Core/Security.antt =====
-- The signatures of app/core/security.py.
use Prim.Native.Char.{code}
use whatsapp_bot.Prelude.{
  String, Bool, true, false, Option, none, some, [], ◌∷◌, ltb, not, ◌&&◌, is_blank, joined, ◌==◌,
  nat_eq, string_eq, if◌then◌else◌,
}
use whatsapp_bot.Store.Session.{Result, ok, err, Error}

-- `text.startswith`
abbrev pub starts_with : String → String → Bool
starts_with String.[] text = true
starts_with (String.◌∷◌ c prefix) String.[] = false
starts_with (String.◌∷◌ c prefix) (String.◌∷◌ d text) = code c == code d && starts_with prefix text

abbrev pub is_ascii : String → Bool
is_ascii String.[] = true
is_ascii (String.◌∷◌ c s) = ltb (code c) 128 && is_ascii s

-- `hmac.compare_digest`, which raises on texts that are not ASCII.
abbrev pub compare_digest : String → String → Result Bool
compare_digest a b = if is_ascii a && is_ascii b then ok (a == b) else err (Error.other "TypeError")

-- `hmac_sha256` of a secret and a body is the hexadecimal digest of the `hmac` module.
module _ (hmac_sha256 : String → String → String) where
  abbrev pub compute_signature : String → String → String
  compute_signature payload app_secret = joined ("sha256=" ∷ hmac_sha256 app_secret payload ∷ [])

  -- `verify_webhook_signature`, whose `SignatureVerificationError` `verify_meta_signature` turns
  -- into false.
  abbrev pub verify_header : String → String → String → Result Bool
  verify_header payload header app_secret =
      if is_blank header
      then ok false
      else if not (starts_with "sha256=" header)
      then ok false
      else compare_digest (compute_signature payload app_secret) header

  unfoldable pub verify_meta_signature : String → Option String → String → Result Bool
  verify_meta_signature payload none app_secret = ok false
  verify_meta_signature payload (some header) app_secret =
      if is_blank app_secret then ok false else verify_header payload header app_secret

-- `verify_verify_token` and `verify_admin_key`
abbrev pub verify_token : Option String → String → Result Bool
verify_token none expected = ok false
verify_token (some candidate) expected =
    if is_blank candidate
    then ok false
    else if is_blank expected
    then ok false
    else compare_digest candidate expected
