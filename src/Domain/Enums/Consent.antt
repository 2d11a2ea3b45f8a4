-- ===== src/Domain/Enums/Consent.antt =====
-- The enumerations of app/domain/enums.py about consent. Equality of members is `is`.
use whatsapp_bot.Prelude.{ℕ, String, ◌≡◌, ◌↔◌, Bool, true, arith, Eq, nat_eq, ◌==◌}

pub data ConsentStatus : Type 0 where
  unknown pending opted_in opted_out suppressed : ConsentStatus

-- `ConsentStatus.value`
abbrev pub consent_status_value : ConsentStatus → String
consent_status_value ConsentStatus.unknown = "unknown"
consent_status_value ConsentStatus.pending = "pending"
consent_status_value ConsentStatus.opted_in = "opted_in"
consent_status_value ConsentStatus.opted_out = "opted_out"
consent_status_value ConsentStatus.suppressed = "suppressed"

abbrev pub consent_status_index : ConsentStatus → ℕ
consent_status_index ConsentStatus.unknown = 0
consent_status_index ConsentStatus.pending = 1
consent_status_index ConsentStatus.opted_in = 2
consent_status_index ConsentStatus.opted_out = 3
consent_status_index ConsentStatus.suppressed = 4

abbrev pub consent_status_beq : ConsentStatus → ConsentStatus → Bool
consent_status_beq a b = consent_status_index a == consent_status_index b

pub consent_status_beq_iff : (a b : ConsentStatus) → (consent_status_beq a b ≡ true) ↔ (a ≡ b)
consent_status_beq_iff a b = ground arith

instance abbrev pub consent_status_eq : Eq ConsentStatus
consent_status_eq = record { beq = consent_status_beq; beq_iff = consent_status_beq_iff }

pub data ConsentPurpose : Type 0 where
  marketing utility service authentication : ConsentPurpose

-- `ConsentPurpose.value`
abbrev pub consent_purpose_value : ConsentPurpose → String
consent_purpose_value ConsentPurpose.marketing = "marketing"
consent_purpose_value ConsentPurpose.utility = "utility"
consent_purpose_value ConsentPurpose.service = "service"
consent_purpose_value ConsentPurpose.authentication = "authentication"

abbrev pub consent_purpose_index : ConsentPurpose → ℕ
consent_purpose_index ConsentPurpose.marketing = 0
consent_purpose_index ConsentPurpose.utility = 1
consent_purpose_index ConsentPurpose.service = 2
consent_purpose_index ConsentPurpose.authentication = 3

abbrev pub consent_purpose_beq : ConsentPurpose → ConsentPurpose → Bool
consent_purpose_beq a b = consent_purpose_index a == consent_purpose_index b

pub consent_purpose_beq_iff : (a b : ConsentPurpose) → (consent_purpose_beq a b ≡ true) ↔ (a ≡ b)
consent_purpose_beq_iff a b = ground arith

instance abbrev pub consent_purpose_eq : Eq ConsentPurpose
consent_purpose_eq = record { beq = consent_purpose_beq; beq_iff = consent_purpose_beq_iff }
