-- ===== src/Services/Consent/Histories.antt =====
-- Any sequence of consent events, each in a transaction of its own.
use whatsapp_bot.Prelude.{
  ℕ, ◌+◌, ◌<◌, ◌≡◌, sym, ◌∙◌, subst, String, Bool, true, false, Option, List, [], ◌∷◌, ◌++◌, arith,
  any, where_, any-append, ◌==◌, nat_eq, string_eq, All, inl, inr, ltb, Bool-cases,
}
use mathlib.Core.Path.{subst₂}
use whatsapp_bot.Domain.Enums.{ConsentStatus, ConsentPurpose}
use whatsapp_bot.Domain.Models.{Contact, SuppressionEntry}
use whatsapp_bot.Domain.Config.{BusinessConfig, BotConfig, TemplateDefinition}
use whatsapp_bot.Domain.Rules.Eligibility.{Code, deny}
use whatsapp_bot.Store.Rows.{delete, where_-head, AtMostOne-cases}
use whatsapp_bot.Store.Unique.{
  AtMostOne, AtMostOne-append, AtMostOne-delete, where_-fresh, All-append_one, All-delete,
  any-delete_apart,
}
use whatsapp_bot.Store.Session.{Db, World, ok, session_scope, session_scope-keeps, resume-pure}
use whatsapp_bot.Repositories.Contacts.{
  suppresses, save_contact, create_suppression, remove_suppression,
}
use whatsapp_bot.Repositories.Consents.{record_consent}
use whatsapp_bot.Services.Consent.{opt_out, opt_in, suppress, check_eligibility, or_now}
use whatsapp_bot.Services.Consent.Gate.{check_eligibility-suppressed}

-- The constraints of the suppression list: ids are new and unique, and no phone is listed twice.
pub record IsConsistent (rows : List SuppressionEntry) (next_id : ℕ) : Type 0 where
  pub below : All (λ r. r.id < next_id) rows
  pub unique_id : (i : ℕ) → AtMostOne (λ r. r.id == i) rows
  pub listed_once : (b h : String) → AtMostOne (suppresses b h) rows

-- The list is consistent and has the phone.
pub record IsListed (b h : String) (db : Db) : Type 0 where
  pub consistent : IsConsistent db.suppressions db.next_id
  pub listed : any (suppresses b h) db.suppressions ≡ true

IsConsistent-later :
    (rows : List SuppressionEntry) (n : ℕ) → IsConsistent rows n → IsConsistent rows (n + 1)
IsConsistent-later rows n c = record {
  below = later rows c.below;
  unique_id = c.unique_id;
  listed_once = c.listed_once;
}
  where
    later : (xs : List SuppressionEntry) → All (λ r. r.id < n) xs → All (λ r. r.id < n + 1) xs
    later [] h = tt
    later (x ∷ xs) h = (omega (arith, h.0), later xs h.1)

same_key :
    (row : SuppressionEntry) (b h : String)
    → suppresses b h row ≡ true
    → (row.business_id ≡ b) × (row.phone_hash ≡ h)
same_key row b h e = (
  (string_eq.beq_iff row.business_id b).0 (ground arith),
  (string_eq.beq_iff row.phone_hash h).0 (ground arith),
)

IsConsistent-append :
    (rows : List SuppressionEntry) (row : SuppressionEntry)
    → IsConsistent rows row.id
    → where_ (suppresses row.business_id row.phone_hash) rows ≡ []
    → IsConsistent (rows ++ row ∷ []) (row.id + 1)
IsConsistent-append rows row c new = record {
  below = All-append_one (λ r. r.id) row.id row rows c.below (omega arith);
  unique_id = λ i.
      AtMostOne-append (λ r. r.id == i) row rows (c.unique_id i)
        λ e.
          subst (λ k. where_ (λ r. r.id == k) rows ≡ []) ((nat_eq.beq_iff row.id i).0 e)
            (where_-fresh (λ r. r.id) row.id rows c.below);
  listed_once = λ b h. AtMostOne-append (suppresses b h) row rows (c.listed_once b h) λ e.
      let (same_business, same_phone) = same_key row b h e in
      subst₂ (λ b' h'. where_ (suppresses b' h') rows ≡ []) same_business same_phone new;
}

IsConsistent-delete :
    (rows : List SuppressionEntry) (row : SuppressionEntry) (n : ℕ)
    → IsConsistent rows n
    → IsConsistent (delete (λ r. r.id) row rows) n
IsConsistent-delete rows row n c = record {
  below = All-delete (λ r. r.id) n row rows c.below;
  unique_id = λ i. AtMostOne-delete (λ r. r.id == i) (λ r. r.id) row rows (c.unique_id i);
  listed_once = λ b h. AtMostOne-delete (suppresses b h) (λ r. r.id) row rows (c.listed_once b h);
}

module _ (b h : String) where
  -- Suppressing a phone keeps the list consistent and every listed phone on it.
  create-IsListed :
      (b' h' m r : String) (detail : Option String) (w : World)
      → IsListed b h w.db
      → IsListed b h (create_suppression b' h' m r detail w).1.db
  unfolding create_suppression
  create-IsListed b' h' m r detail w l =
      elim (AtMostOne-cases (where_ (suppresses b' h') w.suppressions)
        (l.consistent.listed_once b' h').bound) [
          | inl new ↦ rw new (record {
            consistent =
                IsConsistent-append w.suppressions
                  (record {
                    id = w.next_id;
                    business_id = b';
                    phone_hash = h';
                    phone_masked = m;
                    reason = r;
                    detail = detail;
                    suppressed_at = w.now;
                  })
                  l.consistent new;
            listed = rw any-append (ground (arith, l.listed));
          })
          | inr (e, old) ↦ rw old (record { consistent = l.consistent; listed = l.listed })
        ]

  -- Lifting another phone's suppression leaves this phone on the list.
  remove-IsListed :
      (b' h' : String) (w : World)
      → ¬ ((b' ≡ b) × (h' ≡ h))
      → IsListed b h w.db
      → IsListed b h (remove_suppression b' h' w).1.db
  unfolding remove_suppression
  remove-IsListed b' h' w other l =
      elim (AtMostOne-cases (where_ (suppresses b' h') w.suppressions)
        (l.consistent.listed_once b' h').bound) [
          | inl absent ↦ rw absent (record { consistent = l.consistent; listed = l.listed })
          | inr (e, found) ↦ rw found (record {
            consistent = IsConsistent-delete w.suppressions e w.next_id l.consistent;
            listed =
                any-delete_apart (λ r. r.id) (suppresses b h) (suppresses b' h') e w.suppressions
                  found (l.consistent.unique_id e.id).bound
                  (apart e (where_-head (suppresses b' h') w.suppressions found))
                ∙ l.listed;
          })
        ]
    where
      apart : (e : SuppressionEntry) → suppresses b' h' e ≡ true → suppresses b h e ≡ false
      apart e hit = elim (Bool-cases (suppresses b h e)) [
        | inl also ↦
            let (p, q) = same_key e b' h' hit in
            let (p', q') = same_key e b h also in absurd (other (sym p ∙ p', sym q ∙ q'))
        | inr not_also ↦ not_also
      ]

-- What a customer, an operator or a delivery failure can do to consent.
pub data ConsentEvent : Type 0 where
  opting_out : Contact → String → Option String → String → Option ℕ → ConsentEvent
  opting_in : Contact → String → ConsentPurpose → Option String → Option ℕ → ConsentEvent
  suppressing : Contact → String → Option String → ConsentEvent

-- One event, in a transaction of its own.
abbrev pub after_event : ConsentEvent → World → World
after_event (opting_out c source evidence reason at) w =
    (session_scope (opt_out c source evidence reason at) w).1
after_event (opting_in c source purpose evidence at) w =
    (session_scope (opt_in c source purpose evidence at) w).1
after_event (suppressing c reason detail) w = (session_scope (suppress c reason detail) w).1

abbrev pub after_events : List ConsentEvent → World → World
after_events [] w = w
after_events (e ∷ es) w = after_events es (after_event e w)

-- The event is no opt-in of the phone.
abbrev pub SparesPhone : String → String → ConsentEvent → Type 0
SparesPhone b h (opting_in c _ _ _ _) = ¬ ((c.business_id ≡ b) × (c.phone_hash ≡ h))
SparesPhone b h (opting_out _ _ _ _ _) = Unit
SparesPhone b h (suppressing _ _ _) = Unit

module _ (b h : String) (c : Contact) (w : World) (l : IsListed b h w.db) where
  -- The world once the contact is marked and the evidence is appended.
  abbrev noted : ConsentStatus → ConsentPurpose → String → ℕ → Option String → World
  noted status purpose source moment evidence =
      (record_consent c.business_id c.id status purpose source moment evidence
        (save_contact (record c { consent_status = status }) w).1).1

  noted-IsListed :
      (status : ConsentStatus) (purpose : ConsentPurpose) (source : String) (moment : ℕ)
      (evidence : Option String)
      → IsListed b h (noted status purpose source moment evidence).db
  unfolding save_contact record_consent
  noted-IsListed status purpose source moment evidence = record {
    consistent = IsConsistent-later w.suppressions w.next_id l.consistent;
    listed = l.listed;
  }

  opt_out-IsListed :
      (source : String) (evidence : Option String) (reason : String) (at : Option ℕ)
      → IsListed b h (opt_out c source evidence reason at w).1.db
  unfolding opt_out
  opt_out-IsListed source evidence reason at =
      let before =
        noted ConsentStatus.opted_out ConsentPurpose.marketing source (or_now at w.now) evidence in
      subst (λ (x : World). IsListed b h x.db)
        (sym (
          resume-pure
            (create_suppression c.business_id c.phone_hash c.phone_masked reason evidence before)
            (record c { consent_status = ConsentStatus.opted_out })))
        (create-IsListed b h c.business_id c.phone_hash c.phone_masked reason evidence before (
          noted-IsListed ConsentStatus.opted_out ConsentPurpose.marketing source (or_now at w.now)
            evidence))

  suppress-IsListed :
      (reason : String) (detail : Option String) → IsListed b h (suppress c reason detail w).1.db
  unfolding suppress
  suppress-IsListed reason detail =
      let before = (save_contact (record c { consent_status = ConsentStatus.suppressed }) w).1 in
      subst (λ (x : World). IsListed b h x.db)
        (sym (
          resume-pure
            (create_suppression c.business_id c.phone_hash c.phone_masked reason detail before)
            (record c { consent_status = ConsentStatus.suppressed })))
        (create-IsListed b h c.business_id c.phone_hash c.phone_masked reason detail before
          (record { consistent = l.consistent; listed = l.listed }))

  opt_in-IsListed :
      (source : String) (purpose : ConsentPurpose) (evidence : Option String) (at : Option ℕ)
      → ¬ ((c.business_id ≡ b) × (c.phone_hash ≡ h))
      → IsListed b h (opt_in c source purpose evidence at w).1.db
  unfolding opt_in
  opt_in-IsListed source purpose evidence at spared =
      let before = noted ConsentStatus.opted_in purpose source (or_now at w.now) evidence in
      elim (Bool-cases (ltb w.now (or_now at w.now))) [
        | inl late ↦ rw late l
        | inr due ↦ rw due (
            subst (λ (x : World). IsListed b h x.db)
              (sym (
                resume-pure (remove_suppression c.business_id c.phone_hash before)
                  (record c { consent_status = ConsentStatus.opted_in })))
              (remove-IsListed b h c.business_id c.phone_hash before spared
                (noted-IsListed ConsentStatus.opted_in purpose source (or_now at w.now) evidence)))
      ]

module _ (b h : String) where
  after_event-IsListed :
      (e : ConsentEvent) (w : World)
      → SparesPhone b h e
      → IsListed b h w.db
      → IsListed b h (after_event e w).db
  after_event-IsListed (opting_out c source evidence reason at) w s l =
      session_scope-keeps (IsListed b h) (opt_out c source evidence reason at) w l
        (opt_out-IsListed b h c w l source evidence reason at)
  after_event-IsListed (opting_in c source purpose evidence at) w s l =
      session_scope-keeps (IsListed b h) (opt_in c source purpose evidence at) w l
        (opt_in-IsListed b h c w l source purpose evidence at s)
  after_event-IsListed (suppressing c reason detail) w s l =
      session_scope-keeps (IsListed b h) (suppress c reason detail) w l
        (suppress-IsListed b h c w l reason detail)

  after_events-IsListed :
      (es : List ConsentEvent) (w : World)
      → All (SparesPhone b h) es
      → IsListed b h w.db
      → IsListed b h (after_events es w).db
  after_events-IsListed [] w s l = l
  after_events-IsListed (e ∷ es) w s l =
      after_events-IsListed es (after_event e w) s.1 (after_event-IsListed e w s.0 l)

-- Where the list keeps its constraints, a phone on it stays on it through any sequence of consent
-- events, whoever they concern, among which is no opt-in of that phone; after them every contact
-- with the phone is refused every template.
pub suppression_persists :
    (business : BusinessConfig) (bot : BotConfig) (c : Contact) (es : List ConsentEvent)
    (template : Option TemplateDefinition) (now : ℕ) (sent : Bool) (w : World)
    → IsListed c.business_id c.phone_hash w.db
    → All (SparesPhone c.business_id c.phone_hash) es
    → let w' = after_events es w in
      check_eligibility business bot c template now sent w' ≡ (ok (deny Code.suppressed), w')
suppression_persists business bot c es template now sent w l spared =
    check_eligibility-suppressed business bot c template now sent (after_events es w)
      (after_events-IsListed c.business_id c.phone_hash es w spared l).listed
