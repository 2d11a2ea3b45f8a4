-- ===== src/Domain/Rules.antt =====
-- app/domain/rules.py: the deterministic rules of compliance and scheduling.
pub mod Schedule
pub mod Eligibility
pub mod Keywords
pub mod Handover
