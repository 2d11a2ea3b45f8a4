-- ===== src/Repositories/Contacts.antt =====
-- app/repositories/contacts.py: contacts, and the do-not-message list.
use whatsapp_bot.Prelude.{
  ℕ, String, Bool, true, false, Option, none, some, List, [], ◌∷◌, ◌++◌, ◌&&◌, any, where_, take,
  ◌==◌, nat_eq, string_eq, if◌then◌else◌, length,
}
use whatsapp_bot.Domain.Enums.{ConsentStatus, consent_status_eq}
use whatsapp_bot.Domain.Models.{Contact, SuppressionEntry}
use whatsapp_bot.Store.Rows.{put, delete}
use whatsapp_bot.Store.Session.{
  World, M, Error, pure, raise, gets, scalar_one_or_none, modify_db, utcnow, fresh_id, ◌>>=◌, ◌>>◌,
}

-- An object's new attributes reach its row at the flush.
unfoldable pub save_contact : Contact → M Contact
save_contact c = do modify_db (λ db. record db { contacts = put (λ r. r.id) c db.contacts }); pure c

abbrev pub has_hash : String → String → Contact → Bool
has_hash business_id phone_hash c = c.business_id == business_id && c.phone_hash == phone_hash

abbrev pub contact_with_id : String → ℕ → Contact → Bool
contact_with_id business_id id c = c.business_id == business_id && c.id == id

unfoldable pub get_by_hash : String → String → M (Option Contact)
get_by_hash business_id phone_hash = do
  scalar_one_or_none (← gets (λ w. where_ (has_hash business_id phone_hash) w.contacts))

unfoldable pub get_contact_by_id : String → ℕ → M (Option Contact)
get_contact_by_id business_id contact_id = do
  scalar_one_or_none (← gets (λ w. where_ (contact_with_id business_id contact_id) w.contacts))

-- `ContactRepository.create`; the table's constraint refuses a second row for the phone.
unfoldable pub create_contact :
    String → String → String → String → Option String → String → M Contact
create_contact business_id phone_hash phone_encrypted phone_masked first_name locale = do
  taken ← gets (λ w. any (has_hash business_id phone_hash) w.contacts)
  id ← fresh_id
  let row : Contact = record {
    id = id;
    business_id = business_id;
    phone_hash = phone_hash;
    phone_encrypted = phone_encrypted;
    phone_masked = phone_masked;
    first_name = first_name;
    locale = locale;
    consent_status = ConsentStatus.unknown;
    bot_paused = false;
    pause_reason = none;
    last_inbound_at = none;
    last_outbound_at = none;
  }
  if taken
      then raise Error.integrity
      else do modify_db (λ db. record db { contacts = db.contacts ++ row ∷ [] }); pure row

abbrev pub or_create : Option Contact → M Contact → M (Contact × Bool)
or_create none create = create >>= λ c. pure (c, true)
or_create (some c) _ = pure (c, false)

-- The second value is `created`.
unfoldable pub get_or_create_contact :
    String → String → String → String → Option String → String → M (Contact × Bool)
unfolding get_by_hash create_contact
get_or_create_contact business_id phone_hash phone_encrypted phone_masked first_name locale = do
  existing ← get_by_hash business_id phone_hash
  or_create existing
      (create_contact business_id phone_hash phone_encrypted phone_masked first_name locale)

unfoldable pub set_bot_paused : Contact → Bool → Option String → M Contact
unfolding save_contact
set_bot_paused c paused reason =
    save_contact (record c { bot_paused = paused; pause_reason = if paused then reason else none })

unfoldable pub touch_inbound : Contact → ℕ → M Contact
unfolding save_contact
touch_inbound c moment = save_contact (record c { last_inbound_at = some moment })

unfoldable pub touch_outbound : Contact → M Contact
unfolding save_contact
touch_outbound c = do now ← utcnow; save_contact (record c { last_outbound_at = some now })

unfoldable pub list_by_consent : String → ConsentStatus → ℕ → M (List Contact)
list_by_consent business_id status limit = gets (λ w.
    take limit
      (where_ (λ c. c.business_id == business_id && c.consent_status == status) w.contacts))

unfoldable pub count_contacts : String → M ℕ
count_contacts business_id =
    gets (λ w. length (where_ (λ c. c.business_id == business_id) w.contacts))

-- The rows of the do-not-message list for a phone.
abbrev pub suppresses : String → String → SuppressionEntry → Bool
suppresses business_id phone_hash e = e.business_id == business_id && e.phone_hash == phone_hash

abbrev pub suppressed_in : World → String → String → Bool
suppressed_in w business_id phone_hash = any (suppresses business_id phone_hash) w.suppressions

unfoldable pub is_suppressed : String → String → M Bool
is_suppressed business_id phone_hash = gets (λ w. suppressed_in w business_id phone_hash)

abbrev pub or_suppress : Option SuppressionEntry → M SuppressionEntry → M SuppressionEntry
or_suppress none create = create
or_suppress (some e) _ = pure e

-- `SuppressionRepository.create`: idempotent
unfoldable pub create_suppression :
    String → String → String → String → Option String → M SuppressionEntry
create_suppression business_id phone_hash phone_masked reason detail = do
  existing ←
      scalar_one_or_none (← gets (λ w. where_ (suppresses business_id phone_hash) w.suppressions))
  or_suppress existing do
    id ← fresh_id
    now ← utcnow
    let row : SuppressionEntry = record {
      id = id;
      business_id = business_id;
      phone_hash = phone_hash;
      phone_masked = phone_masked;
      reason = reason;
      detail = detail;
      suppressed_at = now;
    }
    modify_db (λ db. record db { suppressions = db.suppressions ++ row ∷ [] })
    pure row

abbrev pub remove_found : Option SuppressionEntry → M Bool
remove_found none = pure false
remove_found (some e) = do
  modify_db (λ db. record db { suppressions = delete (λ r. r.id) e db.suppressions })
  pure true

-- `SuppressionRepository.remove`
unfoldable pub remove_suppression : String → String → M Bool
remove_suppression business_id phone_hash = do
  entry ←
      scalar_one_or_none (← gets (λ w. where_ (suppresses business_id phone_hash) w.suppressions))
  remove_found entry
