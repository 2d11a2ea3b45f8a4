-- ===== src/Domain/Enums/Intents.antt =====
-- The enumerations of app/domain/enums.py about intents and escalations. Equality of members is
-- `is`.
use whatsapp_bot.Prelude.{ℕ, String, ◌≡◌, ◌↔◌, Bool, true, arith, Eq, nat_eq, ◌==◌}

pub data Intent : Type 0 where
  greeting product_inquiry pricing_inquiry availability booking_request order_status support_request
        complaint cancellation refund_request location_hours human_agent_request opt_in opt_out
        unknown :
      Intent

-- `Intent.value`
abbrev pub intent_value : Intent → String
intent_value Intent.greeting = "greeting"
intent_value Intent.product_inquiry = "product_inquiry"
intent_value Intent.pricing_inquiry = "pricing_inquiry"
intent_value Intent.availability = "availability"
intent_value Intent.booking_request = "booking_request"
intent_value Intent.order_status = "order_status"
intent_value Intent.support_request = "support_request"
intent_value Intent.complaint = "complaint"
intent_value Intent.cancellation = "cancellation"
intent_value Intent.refund_request = "refund_request"
intent_value Intent.location_hours = "location_hours"
intent_value Intent.human_agent_request = "human_agent_request"
intent_value Intent.opt_in = "opt_in"
intent_value Intent.opt_out = "opt_out"
intent_value Intent.unknown = "unknown"

abbrev pub intent_index : Intent → ℕ
intent_index Intent.greeting = 0
intent_index Intent.product_inquiry = 1
intent_index Intent.pricing_inquiry = 2
intent_index Intent.availability = 3
intent_index Intent.booking_request = 4
intent_index Intent.order_status = 5
intent_index Intent.support_request = 6
intent_index Intent.complaint = 7
intent_index Intent.cancellation = 8
intent_index Intent.refund_request = 9
intent_index Intent.location_hours = 10
intent_index Intent.human_agent_request = 11
intent_index Intent.opt_in = 12
intent_index Intent.opt_out = 13
intent_index Intent.unknown = 14

abbrev pub intent_beq : Intent → Intent → Bool
intent_beq a b = intent_index a == intent_index b

pub intent_beq_iff : (a b : Intent) → (intent_beq a b ≡ true) ↔ (a ≡ b)
intent_beq_iff a b = ground arith

instance abbrev pub intent_eq : Eq Intent
intent_eq = record { beq = intent_beq; beq_iff = intent_beq_iff }

pub data EscalationReason : Type 0 where
  low_confidence customer_request complaint legal_threat safety_concern repeated_failure
        restricted_topic sensitive_action no_knowledge llm_unavailable :
      EscalationReason

-- `EscalationReason.value`
abbrev pub escalation_reason_value : EscalationReason → String
escalation_reason_value EscalationReason.low_confidence = "low_confidence"
escalation_reason_value EscalationReason.customer_request = "customer_request"
escalation_reason_value EscalationReason.complaint = "complaint"
escalation_reason_value EscalationReason.legal_threat = "legal_threat"
escalation_reason_value EscalationReason.safety_concern = "safety_concern"
escalation_reason_value EscalationReason.repeated_failure = "repeated_failure"
escalation_reason_value EscalationReason.restricted_topic = "restricted_topic"
escalation_reason_value EscalationReason.sensitive_action = "sensitive_action"
escalation_reason_value EscalationReason.no_knowledge = "no_knowledge"
escalation_reason_value EscalationReason.llm_unavailable = "llm_unavailable"

abbrev pub escalation_reason_index : EscalationReason → ℕ
escalation_reason_index EscalationReason.low_confidence = 0
escalation_reason_index EscalationReason.customer_request = 1
escalation_reason_index EscalationReason.complaint = 2
escalation_reason_index EscalationReason.legal_threat = 3
escalation_reason_index EscalationReason.safety_concern = 4
escalation_reason_index EscalationReason.repeated_failure = 5
escalation_reason_index EscalationReason.restricted_topic = 6
escalation_reason_index EscalationReason.sensitive_action = 7
escalation_reason_index EscalationReason.no_knowledge = 8
escalation_reason_index EscalationReason.llm_unavailable = 9

abbrev pub escalation_reason_beq : EscalationReason → EscalationReason → Bool
escalation_reason_beq a b = escalation_reason_index a == escalation_reason_index b

pub escalation_reason_beq_iff :
    (a b : EscalationReason) → (escalation_reason_beq a b ≡ true) ↔ (a ≡ b)
escalation_reason_beq_iff a b = ground arith

instance abbrev pub escalation_reason_eq : Eq EscalationReason
escalation_reason_eq = record { beq = escalation_reason_beq; beq_iff = escalation_reason_beq_iff }

pub data EscalationStatus : Type 0 where
  opened acknowledged resolved : EscalationStatus

-- `EscalationStatus.value`
abbrev pub escalation_status_value : EscalationStatus → String
escalation_status_value EscalationStatus.opened = "open"
escalation_status_value EscalationStatus.acknowledged = "acknowledged"
escalation_status_value EscalationStatus.resolved = "resolved"

abbrev pub escalation_status_index : EscalationStatus → ℕ
escalation_status_index EscalationStatus.opened = 0
escalation_status_index EscalationStatus.acknowledged = 1
escalation_status_index EscalationStatus.resolved = 2

abbrev pub escalation_status_beq : EscalationStatus → EscalationStatus → Bool
escalation_status_beq a b = escalation_status_index a == escalation_status_index b

pub escalation_status_beq_iff :
    (a b : EscalationStatus) → (escalation_status_beq a b ≡ true) ↔ (a ≡ b)
escalation_status_beq_iff a b = ground arith

instance abbrev pub escalation_status_eq : Eq EscalationStatus
escalation_status_eq = record { beq = escalation_status_beq; beq_iff = escalation_status_beq_iff }

pub data SafetyFlag : Type 0 where
  none prompt_injection restricted_topic medical_advice legal_advice financial_advice self_harm
        abuse pii_request out_of_scope :
      SafetyFlag

abbrev pub safety_flag_index : SafetyFlag → ℕ
safety_flag_index SafetyFlag.none = 0
safety_flag_index SafetyFlag.prompt_injection = 1
safety_flag_index SafetyFlag.restricted_topic = 2
safety_flag_index SafetyFlag.medical_advice = 3
safety_flag_index SafetyFlag.legal_advice = 4
safety_flag_index SafetyFlag.financial_advice = 5
safety_flag_index SafetyFlag.self_harm = 6
safety_flag_index SafetyFlag.abuse = 7
safety_flag_index SafetyFlag.pii_request = 8
safety_flag_index SafetyFlag.out_of_scope = 9

abbrev pub safety_flag_beq : SafetyFlag → SafetyFlag → Bool
safety_flag_beq a b = safety_flag_index a == safety_flag_index b

pub safety_flag_beq_iff : (a b : SafetyFlag) → (safety_flag_beq a b ≡ true) ↔ (a ≡ b)
safety_flag_beq_iff a b = ground arith

instance abbrev pub safety_flag_eq : Eq SafetyFlag
safety_flag_eq = record { beq = safety_flag_beq; beq_iff = safety_flag_beq_iff }
