-- ===== src/Jobs.antt =====
-- The provisioning jobs: packages/queue and services/worker/src/jobs.
pub mod Repo
pub mod Runner
pub mod Queue
pub mod Sweeper
mod Tests
