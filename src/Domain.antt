-- ===== src/Domain.antt =====
-- app/domain: enumerations, configuration, table rows and the pure rules.
pub mod Enums
pub mod Config
pub mod Models
pub mod Schemas
pub mod Rules
pub mod Phone
