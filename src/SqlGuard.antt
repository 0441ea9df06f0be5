-- ===== src/SqlGuard.antt =====
-- packages/sql-guard/src: which statements of a script need a confirmation.
pub mod Lexer
pub mod Split
pub mod Names
pub mod Danger
pub mod Classify
mod Tests
