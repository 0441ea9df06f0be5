-- ===== src/Kernel.antt =====
-- services/api/src/kernel: what the API's modules share.
pub mod RateLimit
pub mod Pagination
mod Tests
