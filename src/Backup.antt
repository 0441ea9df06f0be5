-- ===== src/Backup.antt =====
-- services/worker/src: when a project's base backup is taken.
pub mod Schedule
mod Tests
