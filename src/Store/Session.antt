-- ===== src/Store/Session.antt =====
-- A session: what a handler sees and changes, its exceptions, and the transaction around it.
use whatsapp_bot.Prelude.{
  ℕ, ◌+◌, ◌≡◌, refl, ap, ◌⊎◌, inl, inr, String, Bool, Option, none, some, List, [], ◌∷◌,
}
use whatsapp_bot.Domain.Models.{
  Contact, Conversation, Message, ConsentRecord, SuppressionEntry, Campaign, CampaignRecipient,
  Escalation, WebhookEvent, DeadLetter, BotState,
}

-- The tables. New rows take the next number of one sequence as their id; only the order of ids
-- and that they differ matters.
pub record Db : Type 0 where
  pub contacts : List Contact
  pub conversations : List Conversation
  pub messages : List Message
  pub consents : List ConsentRecord
  pub suppressions : List SuppressionEntry
  pub campaigns : List Campaign
  pub recipients : List CampaignRecipient
  pub escalations : List Escalation
  pub webhook_events : List WebhookEvent
  pub dead_letters : List DeadLetter
  pub bot_states : List BotState
  pub next_id : ℕ

-- A call of the WhatsApp client.
pub data Outgoing : Type 0 where
  send_text : String → String → Outgoing
  send_template : String → String → String → List String → Outgoing
  mark_as_read : String → Outgoing

-- A task handed to the worker queue: an inbound message or a status by its event key, a campaign by
-- its id and the dry-run flag.
pub data Job : Type 0 where
  inbound_message : String → Job
  status_update : String → Job
  campaign : ℕ → Bool → Job

-- `outbox` lists the calls of the WhatsApp client so far, and `jobs` the tasks enqueued: no
-- transaction takes them back. The clock
-- stands still while one handler runs.
pub record World : Type 0 where
  pub db : Db
  pub open db use *
  pub now : ℕ
  pub correlation_id : Option String
  pub outbox : List Outgoing
  pub jobs : List Job

-- The exceptions of app/core/exceptions.py that handlers tell apart, those of the ORM, and others.
pub data Error : Type 0 where
  validation configuration circuit_open llm timeout integrity pending_rollback multiple_results :
      Error
  whatsapp_api : Option ℕ → String → Error
  other : String → Error

pub data Result (A : Type 0) : Type 0 where
  ok : A → Result A
  err : Error → Result A

abbrev pub IsOk : {A : Type 0} → Result A → Type 0
IsOk (ok _) = Unit
IsOk (err _) = ⊥

-- What was changed before an exception stays changed in the session.
abbrev pub M : Type 0 → Type 0
M A = World → Result A × World

module _ {A : Type 0} where
  abbrev pub pure : A → M A
  pure a w = (ok a, w)

  abbrev pub raise : Error → M A
  raise e w = (err e, w)

  abbrev pub gets : (World → A) → M A
  gets f w = (ok (f w), w)

  -- `scalar_one_or_none`
  abbrev pub scalar_one_or_none : List A → M (Option A)
  scalar_one_or_none [] w = (ok none, w)
  scalar_one_or_none (x ∷ []) w = (ok (some x), w)
  scalar_one_or_none (x ∷ y ∷ r) w = (err multiple_results, w)

-- The rest of a block runs where the step before it succeeded.
abbrev pub resume : {A B : Type 0} → (A → M B) → Result A × World → Result B × World
resume f (ok a, w) = f a w
resume f (err e, w) = (err e, w)

infixl 5 ◌>>=◌ ◌>>◌
abbrev pub ◌>>=◌ : {A B : Type 0} → M A → (A → M B) → M B
◌>>=◌ m f w = resume f (m w)

abbrev pub ◌>>◌ : {A B : Type 0} → M A → M B → M B
m >> k = m >>= λ _. k

abbrev pub modify_db : (Db → Db) → M (Unit {0})
modify_db f w = (ok tt, record w { db = f w.db })

-- `utcnow()`
abbrev pub utcnow : M ℕ
utcnow w = (ok w.now, w)

-- The id of the row that the next flush inserts.
abbrev pub fresh_id : M ℕ
fresh_id w = (ok w.next_id, record w { db = record w.db { next_id = w.next_id + 1 } })

-- `try` with a handler: what the body changed stays in the session.
abbrev pub handle : {A : Type 0} → (Error → M A) → Result A × World → Result A × World
handle h (ok a, w) = (ok a, w)
handle h (err e, w) = h e w

abbrev pub attempt : {A : Type 0} → M A → (Error → M A) → M A
attempt body h w = handle h (body w)

-- `set_correlation_id`
abbrev pub set_correlation_id : Option String → M (Unit {0})
set_correlation_id id w = (ok tt, record w { correlation_id = id })

abbrev pub close : {A : Type 0} → Db → Result A × World → Result A × World
close before (ok a, w) = (ok a, w)
close before (err e, w) = (err e, record w { db = before })

-- `session_scope`: commit on success, roll the tables back on an exception. What was sent stays
-- sent.
unfoldable pub session_scope : {A : Type 0} → M A → M A
session_scope body w = close w.db (body w)

pub Result-cases :
    {A : Type 0} (x : Result A × World)
    → ((a : A) × (w : World) × (x ≡ (ok a, w))) ⊎ ((e : Error) × (w : World) × (x ≡ (err e, w)))
Result-cases (ok a, w) = inl (a, w, refl)
Result-cases (err e, w) = inr (e, w, refl)

-- A step that succeeds hands its value on; one that raises ends the block.
pub bind-ok :
    {A B : Type 0} (m : M A) (f : A → M B) {w w' : World} {a : A}
    → m w ≡ (ok a, w')
    → (m >>= f) w ≡ f a w'
bind-ok m f e = ap (resume f) e

pub bind-err :
    {A B : Type 0} (m : M A) (f : A → M B) {w w' : World} {e : Error}
    → m w ≡ (err e, w')
    → (m >>= f) w ≡ (err e, w')
bind-err m f h = ap (resume f) h

-- A step that only hands on a value leaves the world to the step before it.
pub resume-pure : {A B : Type 0} (x : Result A × World) (b : B) → (resume (λ _. pure b) x).1 ≡ x.1
resume-pure (ok a, w) b = refl
resume-pure (err e, w) b = refl

-- What holds of the tables before and after a body holds after its transaction.
pub session_scope-keeps :
    {A : Type 0} (P : Db → Type 0) (body : M A) (w : World)
    → P w.db
    → P (body w).1.db
    → P (session_scope body w).1.db
unfolding session_scope
session_scope-keeps P body w before after = elim (Result-cases (body w)) [
  | inl (a, w', done) ↦ rw done (rw done at after)
  | inr (e, w', failed) ↦ rw failed before
]

pub session_scope-ok :
    {A : Type 0} (body : M A) {w w' : World} {a : A}
    → body w ≡ (ok a, w')
    → session_scope body w ≡ (ok a, w')
unfolding session_scope
session_scope-ok body {w} e = ap (close w.db) e

pub session_scope-err :
    {A : Type 0} (body : M A) {w w' : World} {e : Error}
    → body w ≡ (err e, w')
    → session_scope body w ≡ (err e, record w' { db = w.db })
unfolding session_scope
session_scope-err body {w} h = ap (close w.db) h

-- A transaction that raises leaves the tables as they were.
pub session_scope-raises :
    {A : Type 0} (body : M A) {w : World} {e : Error}
    → (body w).0 ≡ err e
    → ((session_scope body w).0 ≡ err e) × ((session_scope body w).1.db ≡ w.db)
unfolding session_scope
session_scope-raises body {w = w} h = elim (Result-cases (body w)) [
  | inl (a, w', done) ↦ let wrong = rw done at h in cc
  | inr (e', w', failed) ↦ (rw failed (rw failed at h), rw failed refl)
]

-- A property of the value that a step returns, if it returns one.
abbrev pub Returns : {A : Type 0} → (A → Type 0) → Result A × World → Type 0
Returns P (ok a, w) = P a
Returns P (err e, w) = Unit

pub Returns-bind :
    {A B : Type 0} (P : B → Type 0) (m : M A) (f : A → M B) (w : World)
    → ((a : A) (w' : World) → Returns P (f a w'))
    → Returns P ((m >>= f) w)
Returns-bind P m f w h = elim (Result-cases (m w)) [
  | inl (a, w', done) ↦ rw done (h a w')
  | inr (e, w', failed) ↦ rw failed tt
]

-- The rest of a block may use what the step returned.
pub Returns-then :
    {A B : Type 0} (Q : A → Type 0) (P : B → Type 0) (m : M A) (f : A → M B) (w : World)
    → Returns Q (m w)
    → ((a : A) (w' : World) → Q a → Returns P (f a w'))
    → Returns P ((m >>= f) w)
Returns-then Q P m f w q h = elim (Result-cases (m w)) [
  | inl (a, w', done) ↦ rw done (h a w' (rw done at q))
  | inr (e, w', failed) ↦ rw failed tt
]
