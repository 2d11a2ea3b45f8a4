-- ===== src/Domain/Rules/Keywords/Laws.antt =====
-- The keyword search against a description of where a phrase stands in a text.
use whatsapp_bot.Prelude.{
  ◌≤◌, ◌≡◌, refl, ap, ◌↔◌, ◌⊎◌, inl, inr, String, Bool, true, false, none, is_some, List, [], ◌∷◌,
  ◌++◌, ◌&&◌, length, Any, Any-map, ◌<◌, ◌==◌, nat_eq, Text, codes, Bool-cases, arith,
}
use whatsapp_bot.Domain.Config.{BotConfig}
use whatsapp_bot.Domain.Rules.Keywords.{
  Unicode, max_optout_words, is_empty, text_beq, split, phrase_at, search_phrase, is_command,
  normalise_keyword_text, first_keyword, detect_opt_out,
}

-- A text that begins with a space or is at its end.
abbrev pub StartsFree : Text → Type 0
StartsFree [] = Unit
StartsFree (c ∷ _) = c ≡ b' '

-- A text that ends with a space, or is empty where the boundary holds before it.
abbrev pub EndsFree : Bool → Text → Type 0
EndsFree boundary [] = boundary ≡ true
EndsFree boundary (c ∷ cs) = EndsFree (c == b' ') cs

-- The phrase stands in the text as whole words.
pub record OccursFrom (boundary : Bool) (phrase text : Text) : Type 0 where
  pub before : Text
  pub after : Text
  pub parts : text ≡ before ++ (phrase ++ after)
  pub left : EndsFree boundary before
  pub right : StartsFree after

abbrev pub Occurs : Text → Text → Type 0
Occurs = OccursFrom true

text_beq_sound : (s t : Text) → text_beq s t ≡ true → s ≡ t
text_beq_sound [] [] h = refl
text_beq_sound [] (b ∷ t) h = cc
text_beq_sound (a ∷ s) [] h = cc
text_beq_sound (a ∷ s) (b ∷ t) h = ground (arith, text_beq_sound s t)

text_beq_refl : (s : Text) → text_beq s s ≡ true
text_beq_refl [] = refl
text_beq_refl (a ∷ s) = ground (arith, text_beq_refl s)

phrase_at_sound :
    (phrase text : Text)
    → phrase_at phrase text ≡ true
    → (after : Text) × (text ≡ phrase ++ after) × StartsFree after
phrase_at_sound [] [] h = ([], refl, tt)
phrase_at_sound [] (c ∷ cs) h = (c ∷ cs, refl, ground arith)
phrase_at_sound (k ∷ ks) [] h = cc
phrase_at_sound (k ∷ ks) (c ∷ cs) h =
    let (after, eq, free) = phrase_at_sound ks cs (ground arith) in
    let same : c ≡ k = ground arith in (after, ground (arith, eq, same), free)

phrase_at_complete :
    (phrase after : Text) → StartsFree after → phrase_at phrase (phrase ++ after) ≡ true
phrase_at_complete [] [] h = refl
phrase_at_complete [] (c ∷ cs) h = ground arith
phrase_at_complete (k ∷ ks) after h = ground (arith, phrase_at_complete ks after h)

search_phrase_sound :
    (phrase : Text) (boundary : Bool) (text : Text)
    → search_phrase phrase boundary text ≡ true
    → OccursFrom boundary phrase text
unfolding search_phrase
search_phrase_sound phrase boundary [] h =
    let (after, eq, free) = phrase_at_sound phrase [] (ground arith) in
    record { before = []; after = after; parts = eq; left = ground arith; right = free }
search_phrase_sound phrase boundary (c ∷ cs) h =
    elim (Bool-cases (boundary && phrase_at phrase (c ∷ cs))) [
      | inl here ↦
          let (after, eq, free) = phrase_at_sound phrase (c ∷ cs) (ground arith) in
          record { before = []; after = after; parts = eq; left = ground arith; right = free }
      | inr later ↦
          let rest = search_phrase_sound phrase (c == b' ') cs (ground arith) in
          record {
            before = c ∷ rest.before;
            after = rest.after;
            parts = ap (λ t. c ∷ t) rest.parts;
            left = rest.left;
            right = rest.right;
          }
    ]

search_phrase_complete :
    (phrase : Text) (boundary : Bool) (before after : Text)
    → EndsFree boundary before
    → StartsFree after
    → search_phrase phrase boundary (before ++ (phrase ++ after)) ≡ true
unfolding search_phrase
search_phrase_complete phrase boundary [] after left right =
    here (phrase ++ after) (phrase_at_complete phrase after right)
  where
    here : (text : Text) → phrase_at phrase text ≡ true → search_phrase phrase boundary text ≡ true
    here [] h = ground arith
    here (c ∷ cs) h = ground arith
search_phrase_complete phrase boundary (c ∷ cs) after left right =
    ground (arith, search_phrase_complete phrase (c == b' ') cs after left right)

search_phrase_iff :
    (phrase text : Text) → (search_phrase phrase true text ≡ true) ↔ Occurs phrase text
search_phrase_iff phrase text = (
  search_phrase_sound phrase true text,
  λ o. rw o.parts (search_phrase_complete phrase true o.before o.after o.left o.right),
)

-- The message is the keyword, or it is short and the keyword stands in it as whole words.
pub record Commands (message keyword : Text) : Type 0 where
  pub message_given : is_empty message ≡ false
  pub keyword_given : is_empty keyword ≡ false
  pub whole :
      (message ≡ keyword) ⊎ ((length (split message) ≤ max_optout_words) × Occurs keyword message)

is_command-Commands :
    (message keyword : Text)
    → is_empty message ≡ false
    → is_command message keyword ≡ true
    → Commands message keyword
unfolding is_command
is_command-Commands message keyword given h = record {
  message_given = given;
  keyword_given = ground arith;
  whole = elim (Bool-cases (text_beq message keyword)) [
    | inl same ↦ inl (text_beq_sound message keyword same)
    | inr other ↦ inr (ground arith, (search_phrase_iff keyword message).0 (ground arith))
  ];
}

Commands-is_command :
    (message keyword : Text) → Commands message keyword → is_command message keyword ≡ true
unfolding is_command
Commands-is_command message keyword c = elim c.whole [
  | inl same ↦ ground (arith, c.keyword_given, text_beq_refl keyword)
  | inr (short, occurs) ↦
      ground (arith, c.keyword_given, (search_phrase_iff keyword message).1 occurs)
]

module _ (u : Unicode) where
  first_keyword_iff :
      (test : Text → Text → Bool) (message : Text) (keywords : List String)
      → is_empty message ≡ false
      → (is_some (first_keyword u test message keywords) ≡ true)
        ↔ Any (λ k. test message (normalise_keyword_text u (codes k)) ≡ true) keywords
  unfolding first_keyword
  first_keyword_iff test message [] given = ((λ h. ground arith), λ a. absurd a)
  first_keyword_iff test message (k ∷ ks) given =
      let rest = first_keyword_iff test message ks given in
      elim (Bool-cases (test message (normalise_keyword_text u (codes k)))) [
        | inl hit ↦ (λ h. inl hit, λ a. ground arith)
        | inr miss ↦ (
          λ h. inr (rest.0 (ground arith)),
          λ a. elim a [ inl hit ↦ cc | inr later ↦ ground (arith, rest.1 later) ],
        )
      ]

  no_message :
      (test : Text → Text → Bool) (message : Text) (keywords : List String)
      → is_empty message ≡ true
      → first_keyword u test message keywords ≡ none
  unfolding first_keyword
  no_message test message [] e = refl
  no_message test message (k ∷ ks) e = ground (arith, no_message test message ks e)

  -- A message is taken for an opt-out exactly when some stop word commands it: both are non-empty
  -- once normalised, and the message is the stop word, or has four words at most and the stop word
  -- stands in it as whole words.
  pub detect_opt_out_iff :
      (text : String) (bot : BotConfig)
      → (is_some (detect_opt_out u text bot) ≡ true)
        ↔ Any
            (λ k.
              Commands (normalise_keyword_text u (codes text)) (normalise_keyword_text u (codes k)))
            bot.stop_words
  unfolding detect_opt_out
  detect_opt_out_iff text bot =
      let message = normalise_keyword_text u (codes text) in
      elim (Bool-cases (is_empty message)) [
        | inl nothing ↦ (
          λ h.
              absurd
                (none_is_some (rw (no_message is_command message bot.stop_words nothing) at h)),
          λ a. absurd (empty_message message bot.stop_words nothing a),
        )
        | inr given ↦ (
          λ h.
              Any-map bot.stop_words
                (λ k. is_command-Commands message (normalise_keyword_text u (codes k)) given)
                ((first_keyword_iff is_command message bot.stop_words given).0 h),
          λ a. (first_keyword_iff is_command message bot.stop_words given).1 (
              Any-map bot.stop_words
                (λ k. Commands-is_command message (normalise_keyword_text u (codes k))) a),
        )
      ]
    where
      none_is_some : is_some {A = String} none ≡ true → ⊥
      none_is_some h = cc

      empty_message :
          (message : Text) (ks : List String)
          → is_empty message ≡ true
          → Any (λ k. Commands message (normalise_keyword_text u (codes k))) ks
          → ⊥
      empty_message message [] e a = a
      empty_message message (k ∷ ks) e (inl c) = cc (c.message_given)
      empty_message message (k ∷ ks) e (inr a) = empty_message message ks e a

  -- A longer message is an opt-out only if it is, once normalised, a stop word itself; so "please
  -- don't stop sending these" is none.
  pub detect_opt_out_long :
      (text : String) (bot : BotConfig)
      → max_optout_words < length (split (normalise_keyword_text u (codes text)))
      → is_some (detect_opt_out u text bot) ≡ true
      → Any
          (λ k. normalise_keyword_text u (codes text) ≡ normalise_keyword_text u (codes k))
          bot.stop_words
  detect_opt_out_long text bot long h =
      Any-map bot.stop_words
        (λ k c. elim c.whole [ inl same ↦ same | inr (short, _) ↦ absurd (omega arith) ])
        ((detect_opt_out_iff text bot).0 h)
