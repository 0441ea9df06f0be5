-- ===== src/Email.antt =====
-- packages/email/src: what a project may send.
pub mod Caps
pub mod Gate
mod Tests
