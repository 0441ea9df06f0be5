-- ===== src/Placement.antt =====
-- services/worker/src/placement.ts: the node registry and bin-packing.
pub mod Plans
pub mod Packing
pub mod Ports
pub mod Store
pub mod Transactions
mod Tests
