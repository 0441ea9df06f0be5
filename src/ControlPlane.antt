-- ===== src/ControlPlane.antt =====
-- services/api/src/modules/control-plane: projects and the jobs that make them.
pub mod Store
mod Tests
