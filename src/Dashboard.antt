-- ===== src/Dashboard.antt =====
-- apps/dashboard/src/lib: the decisions of the dashboard that are not views.
pub mod Resume
pub mod GridSql
pub mod Dml
pub mod Ddl
pub mod Page
mod Tests
