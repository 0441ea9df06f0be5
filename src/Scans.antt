-- ===== src/Scans.antt =====
-- services/worker/src: the sweeps over projects.
pub mod Ladders
mod Tests
