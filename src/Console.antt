-- ===== src/Console.antt =====
-- services/api/src/modules/db: the SQL console.
pub mod Run
pub mod Rails
pub mod Consent
mod Tests
