-- ===== src/Repositories/Consents.antt =====
-- The consent evidence and the pause switch of app/repositories/consent.py.
pub mod Switch
use whatsapp_bot.Prelude.{
  ℕ, String, Bool, false, Option, none, some, List, [], ◌∷◌, ◌++◌, ◌&&◌, ◌||◌, where_, ltb, ◌==◌,
  nat_eq, string_eq, if◌then◌else◌, length,
}
use whatsapp_bot.Domain.Enums.{ConsentStatus, ConsentPurpose, consent_purpose_eq}
use whatsapp_bot.Domain.Models.{ConsentRecord, BotState}
use whatsapp_bot.Store.Rows.{put}
use whatsapp_bot.Store.Session.{
  M, pure, gets, scalar_one_or_none, modify_db, utcnow, fresh_id, ◌>>=◌, ◌>>◌,
}

-- `ConsentRepository.record`
unfoldable pub record_consent :
    String → ℕ → ConsentStatus → ConsentPurpose → String → ℕ → Option String → M ConsentRecord
record_consent business_id contact_id status purpose source occurred_at evidence = do
  id ← fresh_id
  correlation ← gets (λ w. w.correlation_id)
  let row : ConsentRecord = record {
    id = id;
    business_id = business_id;
    contact_id = contact_id;
    status = status;
    purpose = purpose;
    source = source;
    occurred_at = occurred_at;
    evidence = evidence;
    correlation_id = correlation;
  }
  modify_db (λ db. record db { consents = db.consents ++ row ∷ [] })
  pure row

abbrev pub of_purpose : ℕ → ConsentPurpose → ConsentRecord → Bool
of_purpose contact_id purpose r = r.contact_id == contact_id && r.purpose == purpose

-- Whether a row comes before another in `ORDER BY occurred_at DESC, id DESC`.
abbrev pub later : ConsentRecord → ConsentRecord → Bool
later a b = ltb b.occurred_at a.occurred_at || a.occurred_at == b.occurred_at && ltb b.id a.id

abbrev pub latest : List ConsentRecord → Option ConsentRecord
latest [] = none
latest (r ∷ rs) = elim (latest rs) [ none ↦ some r | some s ↦ if later r s then some r else some s ]

unfoldable pub latest_for_purpose : ℕ → ConsentPurpose → M (Option ConsentRecord)
latest_for_purpose contact_id purpose =
    gets (λ w. latest (where_ (of_purpose contact_id purpose) w.consents))

unfoldable pub count_consents : String → M ℕ
count_consents business_id =
    gets (λ w. length (where_ (λ r. r.business_id == business_id) w.consents))

-- `BotStateRepository`: one row for each business
unfoldable pub get_bot_state : String → M (Option BotState)
get_bot_state business_id = do
  scalar_one_or_none (← gets (λ w. where_ (λ s. s.business_id == business_id) w.bot_states))

abbrev pub or_create_state : Option BotState → M BotState → M BotState
or_create_state none create = create
or_create_state (some s) _ = pure s

unfoldable pub get_or_create_state : String → M BotState
unfolding get_bot_state
get_or_create_state business_id = do
  existing ← get_bot_state business_id
  or_create_state existing do
    id ← fresh_id
    let row : BotState = record {
      id = id;
      business_id = business_id;
      paused = false;
      pause_reason = none;
      paused_by = none;
      paused_at = none;
    }
    modify_db (λ db. record db { bot_states = db.bot_states ++ row ∷ [] })
    pure row

unfoldable pub set_paused : String → Bool → Option String → Option String → M BotState
unfolding get_or_create_state
set_paused business_id paused reason actor = do
  state ← get_or_create_state business_id
  now ← utcnow
  let row : BotState = record state {
    paused = paused;
    pause_reason = if paused then reason else none;
    paused_by = if paused then actor else none;
    paused_at = if paused then some now else none;
  }
  modify_db (λ db. record db { bot_states = put (λ r. r.id) row db.bot_states })
  pure row

abbrev pub paused_of : Option BotState → Bool
paused_of none = false
paused_of (some s) = s.paused

unfoldable pub is_paused : String → M Bool
unfolding get_bot_state
is_paused business_id = do state ← get_bot_state business_id; pure (paused_of state)
