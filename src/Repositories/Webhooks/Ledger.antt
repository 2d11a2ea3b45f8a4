-- ===== src/Repositories/Webhooks/Ledger.antt =====
-- An event key is claimed once.
use whatsapp_bot.Prelude.{
  ℕ, ◌+◌, ◌<◌, ◌≡◌, refl, subst, ◌∙◌, String, Bool, true, false, Option, [], ◌∷◌, ◌++◌, arith, any,
  where_, any-append, not, ◌==◌, nat_eq, string_eq, All, inl, inr, Bool-cases, ◌||◌, ◌&&◌,
}
use mathlib.Core.Path.{subst₂}
use whatsapp_bot.Domain.Models.{WebhookEvent}
use whatsapp_bot.Store.Rows.{put, AtMostOne-cases, any_of_where_, any_of_where_-nil}
use whatsapp_bot.Store.Unique.{
  AtMostOne, AtMostOne-append, where_-fresh, All-append_one, All-put, any-put, length-where_-put,
}
use whatsapp_bot.Store.Session.{Db, World, ok}
use whatsapp_bot.Repositories.Webhooks.{has_key, event_row, claim}

-- The constraints of the ledger: ids are new and unique, and no key is listed twice.
pub record IsLedger (db : Db) : Type 0 where
  pub below : All (λ r. r.id < db.next_id) db.webhook_events
  pub unique_id : (i : ℕ) → AtMostOne (λ r. r.id == i) db.webhook_events
  pub once : (b k : String) → AtMostOne (has_key b k) db.webhook_events

abbrev pub claimed : String → String → World → Bool
claimed b k w = any (has_key b k) w.webhook_events

same_key :
    (row : WebhookEvent) (b k : String)
    → has_key b k row ≡ true
    → (row.business_id ≡ b) × (row.event_key ≡ k)
same_key row b k e = (
  (string_eq.beq_iff row.business_id b).0 (ground arith),
  (string_eq.beq_iff row.event_key k).0 (ground arith),
)

IsLedger-append :
    (db : Db) (b k t : String) (correlation : Option String) (now : ℕ)
    → IsLedger db
    → where_ (has_key b k) db.webhook_events ≡ []
    → IsLedger (record db {
      webhook_events = db.webhook_events ++ event_row db.next_id b k t correlation now ∷ [];
      next_id = db.next_id + 1;
    })
IsLedger-append db b k t correlation now l new =
    let row = event_row db.next_id b k t correlation now in
    record {
      below = All-append_one (λ r. r.id) db.next_id row db.webhook_events l.below (omega arith);
      unique_id = λ i.
          AtMostOne-append (λ r. r.id == i) row db.webhook_events (l.unique_id i)
            λ e.
              subst (λ j. where_ (λ r. r.id == j) db.webhook_events ≡ [])
                ((nat_eq.beq_iff db.next_id i).0 e)
                (where_-fresh (λ r. r.id) db.next_id db.webhook_events l.below);
      once = λ b' k'. AtMostOne-append (has_key b' k') row db.webhook_events (l.once b' k') λ e.
          let (same_business, same_event) = same_key row b' k' e in
          subst₂ (λ b'' k''. where_ (has_key b'' k'') db.webhook_events ≡ []) same_business
            same_event new;
    }

module _ (db : Db) (l : IsLedger db) (q : WebhookEvent → Bool) (e row : WebhookEvent)
    (found : where_ q db.webhook_events ≡ e ∷ []) (same_id : row.id ≡ e.id)
    (same : (b k : String) → has_key b k row ≡ has_key b k e) where
  -- A row that is written back under its id and key keeps the ledger.
  IsLedger-put : IsLedger (record db { webhook_events = put (λ r. r.id) row db.webhook_events })
  IsLedger-put = record {
    below = All-put (λ r. r.id) db.next_id row db.webhook_events l.below;
    unique_id = λ i. record {
      bound =
          rw
            (length-where_-put (λ r. r.id) (λ r. r.id == i) q e row db.webhook_events found
              (l.unique_id row.id).bound same_id (rw same_id))
            (l.unique_id i).bound;
    };
    once = λ b k. record {
      bound =
          rw
            (length-where_-put (λ r. r.id) (has_key b k) q e row db.webhook_events found
              (l.unique_id row.id).bound same_id (same b k))
            (l.once b k).bound;
    };
  }

claimed_again :
    (b k b' k' : String) (w : World)
    → claimed b k w ≡ true
    → claimed b' k' w ≡ (claimed b' k' w || b == b' && k == k')
claimed_again b k b' k' w taken = elim (Bool-cases (b == b' && k == k')) [
  | inl same ↦
      let same_business : b ≡ b' = (string_eq.beq_iff b b').0 (ground arith) in
      let same_event : k ≡ k' = (string_eq.beq_iff k k').0 (ground arith) in
      let also : claimed b' k' w ≡ true =
        subst₂ (λ b'' k''. claimed b'' k'' w ≡ true) same_business same_event taken in
      ground (arith, also)
  | inr other ↦ ground (arith, other)
]

-- Where the ledger's constraints hold, claiming an event answers whether its key was free, leaves
-- it taken and no other key changed, enqueues nothing and keeps the ledger's constraints.
pub claim_lem :
    (b k t : String) (w : World)
    → IsLedger w.db
    → let (r, w') = claim b k t w in
      (r ≡ ok (not (claimed b k w)))
      × (w'.jobs ≡ w.jobs)
      × IsLedger w'.db
      × ((b' k' : String) → claimed b' k' w' ≡ (claimed b' k' w || b == b' && k == k'))
unfolding claim
claim_lem b k t w l =
    elim (AtMostOne-cases (where_ (has_key b k) w.webhook_events) (l.once b k).bound) [
      | inl absent ↦
          let free : any (has_key b k) w.webhook_events ≡ false =
            any_of_where_-nil (has_key b k) w.webhook_events absent in
          rw (absent, free)
            (
              refl,
              refl,
              IsLedger-append w.db b k t w.correlation_id w.now l absent,
              λ b' k'. rw any-append (ground arith),
            )
      | inr (e, found) ↦
          let row : WebhookEvent = record e { attempts = e.attempts + 1 } in
          let taken = any_of_where_ (has_key b k) w.webhook_events found in
          rw found (
            rw taken,
            refl,
            IsLedger-put w.db l (has_key b k) e row found refl (λ b' k'. refl),
            λ b' k'.
                any-put (λ r. r.id) (has_key b' k') (has_key b k) e row w.webhook_events found
                  (l.unique_id row.id).bound refl refl
                ∙ claimed_again b k b' k' w taken,
          )
    ]
