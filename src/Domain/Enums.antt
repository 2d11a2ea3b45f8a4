-- ===== src/Domain/Enums.antt =====
-- The enumerations of app/domain/enums.py, by topic.
pub mod Messaging
pub mod Consent
pub mod Templates
pub mod Intents
pub use Messaging.*
pub use Consent.*
pub use Templates.*
pub use Intents.*
