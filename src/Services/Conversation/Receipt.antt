-- ===== src/Services/Conversation/Receipt.antt =====
-- What storing an inbound message leaves: the suppression list and the event ledger as
-- they were, and the contact of the
-- number.
use whatsapp_bot.Prelude.{
  ℕ, ◌≡◌, refl, ◌∙◌, String, Bool, true, Option, none, some, List, [], ◌∷◌, any, where_, not, ◌&&◌,
  Bool-cases, inl, inr, is_blank, or_text, All, where_-All, text_eq_refl, string_eq,
}
use whatsapp_bot.Domain.Config.{BusinessConfig, BotConfig}
use whatsapp_bot.Domain.Models.{Contact, Conversation, SuppressionEntry, WebhookEvent}
use whatsapp_bot.Domain.Phone.{NormalisedPhone}
use whatsapp_bot.Services.Conversation.Inbound.{
  InboundMessage, InboundHost, with_profile_name, contact_for, resolve_contact,
}
use whatsapp_bot.Services.Conversation.Handle.{
  mark_read, inbound_message, file_message, open_for, receive,
}
use whatsapp_bot.Store.Session.{
  World, M, Result-cases, scalar_one_or_none, ◌>>=◌, Returns, Returns-then, Returns-bind,
}
use whatsapp_bot.Store.Rows.{find_last}
use whatsapp_bot.Repositories.Contacts.{
  has_hash, get_or_create_contact, get_by_hash, create_contact, or_create, save_contact,
  touch_inbound,
}
use whatsapp_bot.Repositories.Conversations.{
  get_or_create_conversation, renew, has_expired, is_open_for, get_active, touch_conversation,
  save_conversation, create_conversation,
}
use whatsapp_bot.Repositories.Messages.{NewMessage, add_message, meta_id_taken}

-- The suppression list and the event ledger.
abbrev pub kept : World → List SuppressionEntry × List WebhookEvent
kept w = (w.suppressions, w.webhook_events)

-- A step that leaves both as they are.
abbrev pub Keeps : {A : Type 0} → M A → World → Type 0
Keeps m w = kept (m w).1 ≡ kept w

pub bind-Keeps :
    {A B : Type 0} (m : M A) (f : A → M B) {w : World}
    → Keeps m w
    → ((a : A) (w' : World) → Keeps (f a) w')
    → Keeps (m >>= f) w
bind-Keeps m f {w = w} first rest = elim (Result-cases (m w)) [
  | inl (a, w', done) ↦ rw done (rest a w' ∙ (rw done at first))
  | inr (e, w', failed) ↦ rw failed (rw failed at first)
]

scalar-Keeps : {A : Type 0} (rows : List A) (w : World) → Keeps (scalar_one_or_none rows) w
scalar-Keeps [] w = refl
scalar-Keeps (x ∷ []) w = refl
scalar-Keeps (x ∷ y ∷ rows) w = refl

pub add_message-Keeps : (n : NewMessage) (w : World) → Keeps (add_message n) w
unfolding add_message
add_message-Keeps n w =
    elim (Bool-cases (meta_id_taken n.business_id n.meta_message_id w.messages)) [
      | inl taken ↦ rw taken refl
      | inr free ↦ rw free refl
    ]

renew-Keeps :
    (b : String) (c h : ℕ) (existing : Option Conversation) (now : ℕ) (w : World)
    → Keeps (renew b c h existing now) w
unfolding renew create_conversation save_conversation
renew-Keeps b c h none now w = refl
renew-Keeps b c h (some existing) now w = elim (Bool-cases (has_expired existing.expires_at now)) [
  | inl over ↦ rw over refl
  | inr live ↦ rw live refl
]

get_or_create_conversation-Keeps :
    (b : String) (c h : ℕ) (w : World) → Keeps (get_or_create_conversation b c h) w
unfolding get_or_create_conversation get_active
get_or_create_conversation-Keeps b c h w =
    renew-Keeps b c h (find_last (is_open_for b c) w.conversations) w.now w

or_create-Keeps :
    (found : Option Contact) (b h e m : String) (name : Option String) (locale : String) (w : World)
    → Keeps (or_create found (create_contact b h e m name locale)) w
unfolding create_contact
or_create-Keeps (some c) b h e m name locale w = refl
or_create-Keeps none b h e m name locale w = elim (Bool-cases (any (has_hash b h) w.contacts)) [
  | inl taken ↦ rw taken refl
  | inr free ↦ rw free refl
]

get_or_create_contact-Keeps :
    (b h e m : String) (name : Option String) (locale : String) (w : World)
    → Keeps (get_or_create_contact b h e m name locale) w
unfolding get_or_create_contact get_by_hash
get_or_create_contact-Keeps b h e m name locale w =
    bind-Keeps (scalar_one_or_none (where_ (has_hash b h) w.contacts)) _
      (scalar-Keeps (where_ (has_hash b h) w.contacts) w)
      λ found w'. or_create-Keeps found b h e m name locale w'

-- A row that was found passes the test.
abbrev IsFound : {A : Type 0} → (A → Bool) → Option A → Type 0
IsFound p none = Unit
IsFound p (some x) = p x ≡ true

scalar-IsFound :
    {A : Type 0} (p : A → Bool) (rows : List A) (w : World)
    → All (λ x. p x ≡ true) rows
    → Returns (IsFound p) (scalar_one_or_none rows w)
scalar-IsFound p [] w passes = tt
scalar-IsFound p (x ∷ []) w passes = passes.0
scalar-IsFound p (x ∷ y ∷ rows) w passes = tt

or_create-IsFound :
    (found : Option Contact) (b h e m : String) (name : Option String) (locale : String) (w : World)
    → IsFound (has_hash b h) found
    → Returns
        (λ r. has_hash b h r.0 ≡ true)
        (or_create found (create_contact b h e m name locale) w)
unfolding create_contact
or_create-IsFound (some c) b h e m name locale w passes = passes
or_create-IsFound none b h e m name locale w passes =
    elim (Bool-cases (any (has_hash b h) w.contacts)) [
      | inl taken ↦ rw taken tt
      | inr free ↦ rw free (rw (text_eq_refl b) (text_eq_refl h))
    ]

get_or_create_contact-IsFound :
    (b h e m : String) (name : Option String) (locale : String) (w : World)
    → Returns (λ r. has_hash b h r.0 ≡ true) (get_or_create_contact b h e m name locale w)
unfolding get_or_create_contact get_by_hash
get_or_create_contact-IsFound b h e m name locale w =
    Returns-then (IsFound (has_hash b h)) (λ r. has_hash b h r.0 ≡ true)
      (scalar_one_or_none (where_ (has_hash b h) w.contacts)) _ w
      (scalar-IsFound (has_hash b h) (where_ (has_hash b h) w.contacts) w
        (where_-All (has_hash b h) w.contacts))
      λ found w' passes. or_create-IsFound found b h e m name locale w' passes

module _ (business : BusinessConfig) (bot : BotConfig) (host : InboundHost) where
  with_profile_name-Keeps :
      (event : InboundMessage) (found : Contact × Bool) (w : World)
      → Keeps (with_profile_name business bot host event found) w
  unfolding save_contact
  with_profile_name-Keeps event (c, created) w =
      elim (Bool-cases (
        not created
        && not (is_blank (or_text event.profile_name ""))
        && is_blank (or_text c.first_name ""))) [
          | inl named ↦ rw named refl
          | inr kept ↦ rw kept refl
        ]

  contact_for-Keeps :
      (event : InboundMessage) (phone : Option NormalisedPhone) (w : World)
      → Keeps (contact_for business bot host event phone) w
  contact_for-Keeps event none w = refl
  contact_for-Keeps event (some phone) w =
      bind-Keeps
        (get_or_create_contact business.business_id phone.hash (host.encrypt phone.e164)
          phone.masked event.profile_name business.default_language)
        (with_profile_name business bot host event)
        (get_or_create_contact-Keeps business.business_id phone.hash (host.encrypt phone.e164)
          phone.masked event.profile_name business.default_language w)
        (with_profile_name-Keeps event)

  mark_read-Keeps :
      (event : InboundMessage) (w : World) → Keeps (mark_read business bot host event) w
  unfolding mark_read
  mark_read-Keeps event w =
      elim (Bool-cases (bot.features.auto_mark_read && not (is_blank event.meta_message_id))) [
        | inl marks ↦ rw marks refl
        | inr skips ↦ rw skips refl
      ]

  file_message-Keeps :
      (event : InboundMessage) (c : Contact) (conversation : Conversation) (w : World)
      → Keeps (file_message business bot host event c conversation) w
  unfolding file_message
  file_message-Keeps event c conversation w =
      let row = inbound_message business bot host event c conversation w.correlation_id in
      bind-Keeps (add_message row) _ (add_message-Keeps row w) λ _ w1.
        bind-Keeps (mark_read business bot host event) _ (mark_read-Keeps event w1) λ _ _. refl

  open_for-Keeps :
      (event : InboundMessage) (c : Contact) (w : World)
      → Keeps (open_for business bot host event c) w
  unfolding open_for touch_conversation touch_inbound save_contact save_conversation
  open_for-Keeps event c w =
      bind-Keeps
        (get_or_create_conversation business.business_id c.id bot.conversation_expiry_hours) _
        (get_or_create_conversation-Keeps business.business_id c.id bot.conversation_expiry_hours w)
        λ conversation w1. file_message-Keeps event _ _ _

  pub receive-Keeps :
      (event : InboundMessage) (w : World) → kept (receive business bot host event w).1 ≡ kept w
  unfolding receive resolve_contact
  receive-Keeps event w =
      let phone = host.normalise_phone event.wa_id in
      bind-Keeps (contact_for business bot host event phone) (open_for business bot host event)
        (contact_for-Keeps event phone w) (open_for-Keeps event)

  -- The contact is the one of a number.
  abbrev pub IsOf : NormalisedPhone → Contact → Type 0
  IsOf phone c = has_hash business.business_id phone.hash c ≡ true

  with_profile_name-IsOf :
      (phone : NormalisedPhone) (event : InboundMessage) (found : Contact × Bool) (w : World)
      → IsOf phone found.0
      → Returns (IsOf phone) (with_profile_name business bot host event found w)
  unfolding save_contact
  with_profile_name-IsOf phone event (c, created) w named_so =
      elim (Bool-cases (
        not created
        && not (is_blank (or_text event.profile_name ""))
        && is_blank (or_text c.first_name ""))) [
          | inl named ↦ rw named named_so
          | inr kept ↦ rw kept named_so
        ]

  contact_for-IsOf :
      (phone : NormalisedPhone) (event : InboundMessage) (w : World)
      → Returns (IsOf phone) (contact_for business bot host event (some phone) w)
  contact_for-IsOf phone event w =
      Returns-then (λ r. IsOf phone r.0) (IsOf phone)
        (get_or_create_contact business.business_id phone.hash (host.encrypt phone.e164)
          phone.masked event.profile_name business.default_language)
        (with_profile_name business bot host event) w
        (get_or_create_contact-IsFound business.business_id phone.hash (host.encrypt phone.e164)
          phone.masked event.profile_name business.default_language w)
        (with_profile_name-IsOf phone event)

  file_message-Returns :
      (P : Contact → Type 0) (event : InboundMessage) (c : Contact) (conversation : Conversation)
      (w : World)
      → P c
      → Returns (λ r. P r.0) (file_message business bot host event c conversation w)
  unfolding file_message
  file_message-Returns P event c conversation w holds =
      Returns-bind (λ r. P r.0)
        (add_message (inbound_message business bot host event c conversation w.correlation_id)) _ w
        λ _ w1. Returns-bind (λ r. P r.0) (mark_read business bot host event) _ w1 λ _ _. holds

  open_for-IsOf :
      (phone : NormalisedPhone) (event : InboundMessage) (c : Contact) (w : World)
      → IsOf phone c
      → Returns (λ r. IsOf phone r.0) (open_for business bot host event c w)
  unfolding open_for touch_conversation touch_inbound save_contact save_conversation
  open_for-IsOf phone event c w holds =
      Returns-bind (λ r. IsOf phone r.0)
        (get_or_create_conversation business.business_id c.id bot.conversation_expiry_hours) _ w
        λ conversation w1. file_message-Returns (IsOf phone) event _ _ _ holds

  -- The contact that the message is stored for has the hash of the sender's number.
  pub receive-IsOf :
      (phone : NormalisedPhone) (event : InboundMessage) (w : World)
      → host.normalise_phone event.wa_id ≡ some phone
      → Returns (λ r. IsOf phone r.0) (receive business bot host event w)
  unfolding receive resolve_contact
  receive-IsOf phone event w valid = rw valid (
      Returns-then (IsOf phone) (λ r. IsOf phone r.0)
        (contact_for business bot host event (some phone)) (open_for business bot host event) w
        (contact_for-IsOf phone event w) (open_for-IsOf phone event))
