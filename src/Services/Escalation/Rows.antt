-- ===== src/Services/Escalation/Rows.antt =====
-- The rows that an escalation writes: its own, the contact's and the conversation's.
use whatsapp_bot.Prelude.{
  ◌≤◌, length, ℕ, ◌+◌, ◌<◌, ◌≡◌, refl, subst, Bool, true, none, some, List, [], ◌∷◌, ◌++◌, All,
  where_, ◌==◌, nat_eq, string_eq, Bool-cases, Option-cases, inl, inr, arith,
}
use whatsapp_bot.Domain.Enums.{escalation_status_eq}
use whatsapp_bot.Domain.Models.{Contact, Conversation, Escalation}
use whatsapp_bot.Store.Rows.{put, find_last, where_-append}
use whatsapp_bot.Store.Unique.{
  AtMostOne, AtMostOne-append, where_-fresh, where_-put, All-append_one, All-put, length-where_-put,
}
use whatsapp_bot.Store.Session.{World}
use whatsapp_bot.Repositories.Escalations.{is_open_in}

-- Ids are new, and no conversation has two escalations that are not resolved.
pub record IsEscalationTable (rows : List Escalation) (next_id : ℕ) : Type 0 where
  pub below : All (λ r. r.id < next_id) rows
  pub once : (c : ℕ) → AtMostOne (is_open_in c) rows

pub find_last-none :
    {A : Type 0} (p : A → Bool) (xs : List A) → find_last p xs ≡ none → where_ p xs ≡ []
find_last-none p [] h = refl
find_last-none p (x ∷ xs) h = elim (Option-cases (find_last p xs)) [
  | inl nothing ↦ ground (arith, find_last-none p xs nothing, nothing)
  | inr (y, found) ↦ ground (arith, found)
]

-- The one row that passes is the last that passes.
pub find_last-sole :
    {A : Type 0} (p : A → Bool) (xs : List A) (y : A)
    → length (where_ p xs) ≤ 1
    → find_last p xs ≡ some y
    → where_ p xs ≡ y ∷ []
find_last-sole p [] y bound h = cc
find_last-sole p (x ∷ xs) y bound h = elim (Option-cases (find_last p xs)) [
  | inl nothing ↦ ground (arith, nothing, find_last-none p xs nothing)
  | inr (z, found) ↦ elim (Bool-cases (p x)) [
    | inl hit ↦
        let one = find_last-sole p xs z (omega (arith, rw hit at bound)) found in
        let two : 2 ≤ 1 = rw (hit, one) at bound in absurd (omega (arith, two))
    | inr miss ↦
        let same : z ≡ y = ground (arith, found) in
        rw miss (find_last-sole p xs y (rw miss at bound) (rw same at found))
  ]
]

pub find_last-some :
    {A : Type 0} (p : A → Bool) (xs : List A) (y : A) → find_last p xs ≡ some y → p y ≡ true
find_last-some p [] y h = cc
find_last-some p (x ∷ xs) y h = elim (Option-cases (find_last p xs)) [
  | inl nothing ↦ ground (arith, nothing)
  | inr (z, found) ↦ ground (arith, found, find_last-some p xs z found)
]

-- A new row of a conversation without an open one keeps the table.
pub IsEscalationTable-append :
    (rows : List Escalation) (n : ℕ) (new : Escalation)
    → IsEscalationTable rows n
    → new.id ≡ n
    → where_ (is_open_in new.conversation_id) rows ≡ []
    → IsEscalationTable (rows ++ new ∷ []) (n + 1)
IsEscalationTable-append rows n new t id_new absent = record {
  below = All-append_one (λ r. r.id) n new rows t.below (omega (arith, id_new));
  once = λ c. AtMostOne-append (is_open_in c) new rows (t.once c) λ hit.
      subst (λ j. where_ (is_open_in j) rows ≡ [])
        ((nat_eq.beq_iff new.conversation_id c).0 (ground arith)) absent;
}

-- Writing back the row of one id, with the same conversation and status, keeps the table.
pub IsEscalationTable-put :
    (rows : List Escalation) (n : ℕ) (e row : Escalation)
    → IsEscalationTable rows n
    → where_ (λ r. r.id == e.id) rows ≡ e ∷ []
    → row.id ≡ e.id
    → ((c : ℕ) → is_open_in c row ≡ is_open_in c e)
    → IsEscalationTable (put (λ r. r.id) row rows) n
IsEscalationTable-put rows n e row t found same_id same = record {
  below = All-put (λ r. r.id) n row rows t.below;
  once = λ c. record {
    bound =
        rw
          (length-where_-put (λ r. r.id) (is_open_in c) (λ r. r.id == e.id) e row rows found
            (rw (same_id, found) (omega arith)) same_id (same c))
          (t.once c).bound;
  };
}

-- The one row of a contact, and of a conversation.
abbrev pub IsContactRow : Contact → World → Type 0
IsContactRow contact w = where_ (λ c. c.id == contact.id) w.contacts ≡ contact ∷ []

abbrev pub IsConversationRow : Conversation → World → Type 0
IsConversationRow conversation w =
    where_ (λ c. c.id == conversation.id) w.conversations ≡ conversation ∷ []

pub IsContactRow-put :
    (contact contact' : Contact) (rows : List Contact)
    → where_ (λ c. c.id == contact.id) rows ≡ contact ∷ []
    → contact'.id ≡ contact.id
    → where_ (λ c. c.id == contact'.id) (put (λ r. r.id) contact' rows) ≡ contact' ∷ []
IsContactRow-put contact contact' rows found same =
    where_-put (λ r. r.id) (λ c. c.id == contact'.id) contact contact' rows (rw (same, found) refl)
      (rw (same, found) (omega arith)) same (ground arith)

pub IsConversationRow-put :
    (conversation conversation' : Conversation) (rows : List Conversation)
    → where_ (λ c. c.id == conversation.id) rows ≡ conversation ∷ []
    → conversation'.id ≡ conversation.id
    → where_ (λ c. c.id == conversation'.id) (put (λ r. r.id) conversation' rows)
      ≡ conversation' ∷ []
IsConversationRow-put conversation conversation' rows found same =
    where_-put (λ r. r.id) (λ c. c.id == conversation'.id) conversation conversation' rows
      (rw (same, found) refl) (rw (same, found) (omega arith)) same (ground arith)

-- The new row is the only one with its id.
pub new_row :
    (rows : List Escalation) (n : ℕ) (e : Escalation)
    → IsEscalationTable rows n
    → e.id ≡ n
    → where_ (λ r. r.id == e.id) (rows ++ e ∷ []) ≡ e ∷ []
new_row rows n e t id_new =
    rw
      (
        where_-append (λ r. r.id == e.id) rows (e ∷ []),
        id_new,
        where_-fresh (λ r. r.id) n rows t.below,
      )
      (ground (arith, id_new))

-- It is the only open one of its conversation.
pub new_open :
    (rows : List Escalation) (e : Escalation)
    → where_ (is_open_in e.conversation_id) rows ≡ []
    → is_open_in e.conversation_id e ≡ true
    → where_ (is_open_in e.conversation_id) (rows ++ e ∷ []) ≡ e ∷ []
new_open rows e absent hit =
    rw (where_-append (is_open_in e.conversation_id) rows (e ∷ []), absent) (ground (arith, hit))
