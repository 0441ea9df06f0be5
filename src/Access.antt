-- ===== src/Access.antt =====
-- packages/types/src/authz.ts: the roles of an organisation and what they may do.
pub mod Roles
pub mod Escalation
mod Tests
