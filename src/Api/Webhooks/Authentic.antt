-- ===== src/Api/Webhooks/Authentic.antt =====
-- Who can change anything through the endpoint.
use whatsapp_bot.Prelude.{
  ◌≡◌, refl, sym, ap, ◌⊎◌, inl, inr, String, Bool, true, false, Option, none, some, ◌&&◌, is_blank,
  string_eq, Bool-cases,
}
use whatsapp_bot.Store.Session.{World, Result, ok, err, ◌>>=◌}
use whatsapp_bot.Core.Security.{
  compute_signature, compare_digest, is_ascii, starts_with, verify_meta_signature,
}
use whatsapp_bot.Integrations.Parser.Json.{Json, JsonHost}
use whatsapp_bot.Api.Webhooks.{Queue}
use whatsapp_bot.Api.Webhooks.Endpoint.{
  lift_result, when_verified, signature_required, handle_webhook,
}

abbrev says_yes : Result Bool → Bool
says_yes (ok b) = b
says_yes (err e) = false

compare_digest-true : (a b : String) → compare_digest a b ≡ ok true → a ≡ b
compare_digest-true a b same = elim (Bool-cases (is_ascii a && is_ascii b)) [
  | inl ascii ↦ (string_eq.beq_iff a b).0 (ap says_yes (rw ascii at same))
  | inr other ↦ absurd (let wrong = rw other at same in cc)
]

module _ (hmac_sha256 : String → String → String) (json_loads : String → Option Json)
    (python : JsonHost) (queue : Queue) (business_id : String) where
  -- Without a verified signature nothing happens.
  unverified :
      (v : Result Bool) (raw_body : String) (w : World)
      → (((lift_result v >>= when_verified hmac_sha256 json_loads python queue business_id raw_body)
            w).1
          ≡ w)
        ⊎ (v ≡ ok true)
  unverified (ok true) raw_body w = inr refl
  unverified (ok false) raw_body w = inl refl
  unverified (err e) raw_body w = inl refl

  verified-signed :
      (payload app_secret : String) (header : Option String)
      → verify_meta_signature hmac_sha256 payload header app_secret ≡ ok true
      → (is_blank app_secret ≡ false)
        × (header ≡ some (compute_signature hmac_sha256 payload app_secret))
  unfolding verify_meta_signature
  verified-signed payload app_secret none v = absurd cc
  verified-signed payload app_secret (some header) v = elim (Bool-cases (is_blank app_secret)) [
    | inl unset ↦ absurd (let wrong = rw unset at v in cc)
    | inr secret ↦ elim (Bool-cases (is_blank header)) [
      | inl blank ↦ absurd (let wrong = rw secret at (rw blank at v) in cc)
      | inr says ↦ elim (Bool-cases (starts_with "sha256=" header)) [
        | inr malformed ↦ absurd (let wrong = rw (secret, says, malformed) at v in cc)
        | inl prefixed ↦
            let same = rw (secret, says, prefixed) at v in
            (secret, ap some (sym (compare_digest-true _ _ same)))
      ]
    ]
  ]

  -- Where a signature is required (outside development and test, or with a secret), a call that
  -- changes anything, in the tables, the queue or elsewhere, carries the signature of its exact body
  -- under a secret that is not empty.
  pub handle_webhook-authentic :
      (app_env app_secret : String) (header : Option String) (raw_body : String) (w : World)
      → signature_required app_env app_secret ≡ true
      → ((handle_webhook hmac_sha256 json_loads python queue business_id app_env app_secret header
            raw_body w).1
          ≡ w)
        ⊎ ((is_blank app_secret ≡ false)
            × (header ≡ some (compute_signature hmac_sha256 raw_body app_secret)))
  unfolding handle_webhook
  handle_webhook-authentic app_env app_secret header raw_body w required =
      let v = verify_meta_signature hmac_sha256 raw_body header app_secret in
      elim (unverified v raw_body w) [
        | inl nothing ↦ inl (rw required nothing)
        | inr verified ↦ inr (verified-signed raw_body app_secret header verified)
      ]
