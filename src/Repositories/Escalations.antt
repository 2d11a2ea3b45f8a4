-- ===== src/Repositories/Escalations.antt =====
-- The escalations of app/repositories/consent.py.
use whatsapp_bot.Prelude.{
  ℕ, String, Bool, Option, none, some, List, [], ◌∷◌, ◌++◌, ◌&&◌, not, where_, take, length, ◌==◌,
  nat_eq, string_eq,
}
use mathlib.Core.List.{reverse}
use whatsapp_bot.Domain.Enums.{EscalationReason, EscalationStatus, Intent, escalation_status_eq}
use whatsapp_bot.Domain.Models.{Escalation}
use whatsapp_bot.Store.Rows.{put, find_last}
use whatsapp_bot.Store.Session.{
  M, pure, gets, scalar_one_or_none, modify_db, utcnow, fresh_id, ◌>>=◌, ◌>>◌,
}

-- The arguments of `EscalationRepository.create`.
pub record NewEscalation : Type 0 where
  pub business_id : String
  pub conversation_id : ℕ
  pub contact_id : ℕ
  pub reason : EscalationReason
  pub summary : String
  pub detected_intent : Option Intent
  pub confidence : Option ℕ
  pub correlation_id : Option String

abbrev pub escalation_row : ℕ → NewEscalation → Escalation
escalation_row id n = record {
  id = id;
  business_id = n.business_id;
  conversation_id = n.conversation_id;
  contact_id = n.contact_id;
  reason = n.reason;
  status = EscalationStatus.opened;
  summary = n.summary;
  detected_intent = n.detected_intent;
  confidence = n.confidence;
  assigned_to = none;
  resolution_note = none;
  resolved_at = none;
  correlation_id = n.correlation_id;
  crm_reference = none;
}

unfoldable pub create_escalation : NewEscalation → M Escalation
create_escalation n = do
  id ← fresh_id
  modify_db (λ db. record db { escalations = db.escalations ++ escalation_row id n ∷ [] })
  pure (escalation_row id n)

unfoldable pub save_escalation : Escalation → M Escalation
save_escalation e = do
  modify_db (λ db. record db { escalations = put (λ r. r.id) e db.escalations })
  pure e

abbrev pub is_unresolved : Escalation → Bool
is_unresolved e = not (e.status == EscalationStatus.resolved)

abbrev pub is_open_in : ℕ → Escalation → Bool
is_open_in conversation_id e = e.conversation_id == conversation_id && is_unresolved e

-- The latest by id.
unfoldable pub get_open_for_conversation : ℕ → M (Option Escalation)
get_open_for_conversation conversation_id =
    gets (λ w. find_last (is_open_in conversation_id) w.escalations)

abbrev pub escalation_with_id : String → ℕ → Escalation → Bool
escalation_with_id business_id id e = e.business_id == business_id && e.id == id

unfoldable pub get_escalation_by_id : String → ℕ → M (Option Escalation)
get_escalation_by_id business_id id = do
  scalar_one_or_none (← gets (λ w. where_ (escalation_with_id business_id id) w.escalations))

-- The latest by their moment of creation, which is the order of the ids.
unfoldable pub list_open : String → ℕ → M (List Escalation)
list_open business_id limit = gets (λ w.
    take limit
      (reverse (where_ (λ e. e.business_id == business_id && is_unresolved e) w.escalations)))

unfoldable pub count_open : String → M ℕ
count_open business_id =
    gets (λ w. length (where_ (λ e. e.business_id == business_id && is_unresolved e) w.escalations))

-- `actor or escalation.assigned_to`
abbrev pub or_assigned : Option String → Option String → Option String
or_assigned none assigned = assigned
or_assigned (some String.[]) assigned = assigned
or_assigned (some (String.◌∷◌ c s)) assigned = some (String.◌∷◌ c s)

unfoldable pub resolve_escalation : Escalation → Option String → Option String → M Escalation
unfolding save_escalation
resolve_escalation e remark actor = do
  now ← utcnow
  save_escalation (record e {
    status = EscalationStatus.resolved;
    resolution_note = remark;
    assigned_to = or_assigned actor e.assigned_to;
    resolved_at = some now;
  })

unfoldable pub acknowledge_escalation : Escalation → String → M Escalation
unfolding save_escalation
acknowledge_escalation e actor =
    save_escalation (record e { status = EscalationStatus.acknowledged; assigned_to = some actor })
