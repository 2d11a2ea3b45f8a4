-- ===== src/Repositories/Conversations/Expiry.antt =====
-- Which conversation a message joins.
use whatsapp_bot.Prelude.{
  ℕ, ◌≤◌, ◌<◌, ◌≡◌, refl, String, Bool, true, false, Option, none, some, List, [], ◌∷◌, arith,
  Option-cases, Bool-cases, inl, inr, sym, string_eq, nat_eq,
}
use mathlib.Core.List.{Mem, mem-cons_self, mem-cons_of_mem, mem-append_right}
use whatsapp_bot.Domain.Enums.{ConversationState}
use whatsapp_bot.Domain.Models.{Conversation}
use whatsapp_bot.Store.Rows.{find_last}
use whatsapp_bot.Store.Session.{World, Result, ok}
use whatsapp_bot.Repositories.Conversations.{
  is_open, is_open_for, has_expired, get_or_create_conversation, create_conversation,
  save_conversation, renew,
}

-- A state in which a conversation goes on.
abbrev pub GoesOn : ConversationState → Type 0
GoesOn ConversationState.closed = ⊥
GoesOn ConversationState.expired = ⊥
GoesOn state = Unit

-- A time that is not reached, where there is one.
abbrev pub IsAhead : Option ℕ → ℕ → Type 0
IsAhead none now = Unit
IsAhead (some t) now = now < t

-- The conversation that a message of a contact may join: a row of the table, of this business and
-- contact, that goes on and has not run out.
pub record IsLive (business_id : String) (contact_id : ℕ) (c : Conversation) (w : World)
    : Type 0 where
  pub stored : Mem c w.conversations
  pub same_business : c.business_id ≡ business_id
  pub same_contact : c.contact_id ≡ contact_id
  pub goes_on : GoesOn c.state
  pub ahead : IsAhead c.expires_at w.now

abbrev Joins : String → ℕ → Result Conversation × World → Type 0
Joins business_id contact_id r =
    (c : Conversation) × (w' : World) × (r ≡ (ok c, w')) × IsLive business_id contact_id c w'

find_last-Mem {ℓ} :
    {A : Type ℓ} (p : A → Bool) (xs : List A) (y : A)
    → find_last p xs ≡ some y
    → Mem y xs × (p y ≡ true)
find_last-Mem p [] y h = cc
find_last-Mem p (x ∷ xs) y h = elim (Option-cases (find_last p xs)) [
  | inl nothing ↦ elim (Bool-cases (p x)) [
    | inl hit ↦
        let same : x ≡ y = ground (arith, nothing, hit) in rw (sym same) (mem-cons_self, hit)
    | inr miss ↦ absurd (ground (arith, nothing, miss))
  ]
  | inr (z, found) ↦
      let same : z ≡ y = ground (arith, found) in
      let (there, hit) = find_last-Mem p xs y (rw same at found) in (mem-cons_of_mem x there, hit)
]

goes_on : (c : Conversation) → is_open c ≡ true → GoesOn c.state
goes_on c h = ground arith

ahead : (e : Option ℕ) (now : ℕ) → has_expired e now ≡ false → IsAhead e now
ahead none now h = tt
ahead (some t) now h = ground arith

IsLive-found :
    (business_id : String) (contact_id : ℕ) (c : Conversation) (w : World)
    → Mem c w.conversations
    → is_open_for business_id contact_id c ≡ true
    → has_expired c.expires_at w.now ≡ false
    → IsLive business_id contact_id c w
IsLive-found business_id contact_id c w stored hit live = record {
  stored = stored;
  same_business = (string_eq.beq_iff c.business_id business_id).0 (ground arith);
  same_contact = (nat_eq.beq_iff c.contact_id contact_id).0 (ground arith);
  goes_on = goes_on c (ground arith);
  ahead = ahead c.expires_at w.now live;
}

-- The new row of a contact that has none, or none that is live.
created-IsLive :
    (business_id : String) (contact_id expiry_hours : ℕ) (w : World)
    → 1 ≤ expiry_hours
    → Joins business_id contact_id (create_conversation business_id contact_id expiry_hours w)
unfolding create_conversation
created-IsLive business_id contact_id expiry_hours w long = (
  _,
  _,
  refl,
  record {
    stored = mem-append_right w.conversations mem-cons_self;
    same_business = refl;
    same_contact = refl;
    goes_on = tt;
    ahead = ground arith;
  },
)

renew-Joins :
    (business_id : String) (contact_id expiry_hours : ℕ) (found : Option Conversation) (w : World)
    → 1 ≤ expiry_hours
    → ((c : Conversation)
        → found ≡ some c
        → Mem c w.conversations × (is_open_for business_id contact_id c ≡ true))
    → Joins business_id contact_id (renew business_id contact_id expiry_hours found w.now w)
unfolding renew save_conversation
renew-Joins business_id contact_id expiry_hours none w long opened =
    created-IsLive business_id contact_id expiry_hours w long
renew-Joins business_id contact_id expiry_hours (some e) w long opened =
    elim (Bool-cases (has_expired e.expires_at w.now)) [
      | inl old ↦ rw old (created-IsLive business_id contact_id expiry_hours _ long)
      | inr live ↦
          let (stored, hit) = opened e refl in
          rw live (e, w, refl, IsLive-found business_id contact_id e w stored hit live)
    ]

-- A message always joins a conversation that is a row of the table afterwards, of its own business
-- and contact, neither closed nor expired, with its time of expiry ahead, whatever the table holds,
-- if conversations are configured to live for an hour at least.
pub get_or_create_conversation-IsLive :
    (business_id : String) (contact_id expiry_hours : ℕ) (w : World)
    → 1 ≤ expiry_hours
    → (c : Conversation) × (w' : World) × (get_or_create_conversation business_id contact_id
          expiry_hours w
        ≡ (ok c, w'))
      × IsLive business_id contact_id c w'
unfolding get_or_create_conversation
get_or_create_conversation-IsLive business_id contact_id expiry_hours w long =
    renew-Joins business_id contact_id expiry_hours
      (find_last (is_open_for business_id contact_id) w.conversations) w long
      (find_last-Mem (is_open_for business_id contact_id) w.conversations)
