-- ===== src/Services/Intent/Validation.antt =====
-- What validation leaves of a result of the model.
use whatsapp_bot.Prelude.{
  where_-All, ℕ, ◌≤◌, ◌≡◌, refl, subst, ◌⊎◌, inl, inr, String, Bool, true, List, [], ◌∷◌, any,
  where_, length, All, Bool-cases, nat_eq, string_eq, ◌==◌, not, ◌&&◌, ◌||◌, leb, arith,
}
use whatsapp_bot.Domain.Enums.{Intent, intent_eq}
use whatsapp_bot.Domain.Config.{BotConfig}
use whatsapp_bot.Domain.Schemas.{
  IntentResult, RetrievalResult, has_context, source_ids, is_empty_list,
}
use whatsapp_bot.Services.Intent.{
  needs_no_context, known_sources, check_enabled, check_support, check_sources, post_validate,
}

abbrev pub IsKnown : RetrievalResult → String → Type 0
IsKnown retrieval s = any (λ i. i == s) (source_ids retrieval) ≡ true

module _ {A : Type 0} (p : A → Bool) where
  length-where_ : (xs : List A) → length (where_ p xs) ≤ length xs
  length-where_ [] = omega arith
  length-where_ (x ∷ xs) = ground (arith, length-where_ xs)

  -- A clause that drops no row holds of every row.
  where_-length-All : (xs : List A) → length (where_ p xs) ≡ length xs → All (λ x. p x ≡ true) xs
  where_-length-All [] h = tt
  where_-length-All (x ∷ xs) h = elim (Bool-cases (p x)) [
    | inl keeps ↦ (keeps, where_-length-All xs (let h' = rw keeps at h in omega (arith, h')))
    | inr drops ↦ let h' = rw drops at h in absurd (omega (arith, h', length-where_ xs))
  ]

-- The intent is one that the business has enabled, or unknown.
abbrev pub IsAllowed : BotConfig → Intent → Type 0
IsAllowed bot i = (any (λ e. e == i) bot.enabled_intents ≡ true) ⊎ (i ≡ Intent.unknown)

module _ (bot : BotConfig) (retrieval : RetrievalResult) where
  check_enabled-IsAllowed :
      (r : IntentResult)
      → ((check_enabled bot r).confidence ≤ r.confidence)
        × IsAllowed bot (check_enabled bot r).intent
  unfolding check_enabled
  check_enabled-IsAllowed r = elim (Bool-cases (any (λ i. i == r.intent) bot.enabled_intents)) [
    | inl on ↦ rw on (omega arith, inl on)
    | inr off ↦ rw off (omega arith, inr refl)
  ]

  -- The test is on the intent that the model named, the result may have another.
  check_support-lowers :
      (claimed : Intent) (r : IntentResult)
      → ((check_support bot retrieval claimed r).confidence ≤ r.confidence)
        × ((has_context retrieval
              || needs_no_context claimed
              || leb (check_support bot retrieval claimed r).confidence bot.thresholds.escalate)
            ≡ true)
        × ((check_support bot retrieval claimed r).intent ≡ r.intent)
  unfolding check_support
  check_support-lowers claimed r = elim (Bool-cases (has_context retrieval)) [
    | inl some_hits ↦ rw some_hits (omega arith, refl, refl)
    | inr no_hits ↦ elim (Bool-cases (needs_no_context claimed)) [
      | inl exempt ↦ rw no_hits (rw exempt (omega arith, refl, refl))
      | inr needs ↦ rw no_hits (rw needs (omega arith, ground arith, refl))
    ]
  ]

  -- Either the sources are those of the model, or none.
  check_support-sources :
      (claimed : Intent) (r : IntentResult)
      → ((check_support bot retrieval claimed r).sources ≡ r.sources)
        ⊎ ((check_support bot retrieval claimed r).sources ≡ [])
  unfolding check_support
  check_support-sources claimed r =
      elim (Bool-cases (not (has_context retrieval) && not (needs_no_context claimed))) [
        | inl emptied ↦ rw emptied (inr refl)
        | inr kept ↦ rw kept (inl refl)
      ]

  check_enabled-sources : (r : IntentResult) → (check_enabled bot r).sources ≡ r.sources
  unfolding check_enabled
  check_enabled-sources r = ground arith

  check_sources-lowers :
      (claimed : List String) (r : IntentResult)
      → ((check_sources bot retrieval claimed r).confidence ≤ r.confidence)
        × ((check_sources bot retrieval claimed r).intent ≡ r.intent)
  unfolding check_sources
  check_sources-lowers claimed r = ground arith

  All-nothing : (sources : List String) → sources ≡ [] → All (IsKnown retrieval) sources
  All-nothing [] h = tt
  All-nothing (s ∷ rest) h = absurd cc

  check_sources-All :
      (claimed : List String) (r : IntentResult)
      → (r.sources ≡ claimed) ⊎ (r.sources ≡ [])
      → All (IsKnown retrieval) (check_sources bot retrieval claimed r).sources
  unfolding check_sources
  check_sources-All claimed r of_model =
      elim (Bool-cases (length (known_sources retrieval claimed) == length claimed)) [
        | inl all_known ↦ rw all_known (elim of_model [
          | inl same ↦ rw same (
              where_-length-All (λ s. any (λ i. i == s) (source_ids retrieval)) claimed
                ((nat_eq.beq_iff _ _).0 all_known))
          | inr emptied ↦ All-nothing r.sources emptied
        ])
        | inr some_unknown ↦ elim (Bool-cases (is_empty_list (known_sources retrieval claimed))) [
          | inl none_known ↦ rw some_unknown (rw none_known tt)
          | inr rest ↦
              rw some_unknown
                (rw rest (where_-All (λ s. any (λ i. i == s) (source_ids retrieval)) claimed))
        ]
      ]

  bounded :
      (context exempt : Bool) (before after : ℕ)
      → (context || exempt || leb before bot.thresholds.escalate) ≡ true
      → after ≤ before
      → (context || exempt || leb after bot.thresholds.escalate) ≡ true
  bounded context exempt before after h le = ground arith

  -- Validation never raises the confidence that the model named; it leaves an intent that is enabled
  -- or unknown, and only sources that retrieval found; and where retrieval found nothing and the
  -- intent needs knowledge, the confidence is at most the threshold of escalation.
  pub post_validate-IsAllowed :
      (result : IntentResult)
      → ((post_validate bot retrieval result).confidence ≤ result.confidence)
        × IsAllowed bot (post_validate bot retrieval result).intent
        × All (IsKnown retrieval) (post_validate bot retrieval result).sources
        × ((has_context retrieval
              || needs_no_context result.intent
              || leb (post_validate bot retrieval result).confidence bot.thresholds.escalate)
            ≡ true)
  unfolding post_validate
  post_validate-IsAllowed result =
      let enabled = check_enabled bot result in
      let supported = check_support bot retrieval result.intent enabled in
      let e = check_enabled-IsAllowed result in
      let u = check_support-lowers result.intent enabled in
      let s = check_sources-lowers result.sources supported in
      (
        omega (arith, e.0, u.0, s.0),
        rw s.1 (rw u.2 e.1),
        check_sources-All result.sources supported (
            subst (λ l. (supported.sources ≡ l) ⊎ (supported.sources ≡ []))
              (check_enabled-sources result) (check_support-sources result.intent enabled)),
        bounded (has_context retrieval) (needs_no_context result.intent) _ _ u.1 s.0,
      )
