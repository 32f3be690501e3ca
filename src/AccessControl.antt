-- ===== src/AccessControl.antt =====
-- contracts/access_control/src/lib.rs: pause, roles, the admin, the multisig, governed parameters,
-- upgrades and the audit log.
pub mod State
pub mod Admin
pub mod Multisig
pub mod Governance
pub mod AuditLog
pub mod After
pub mod Effects
pub mod Quorum
pub mod Steps
pub mod Execution
pub mod Parameters
pub mod Authority
