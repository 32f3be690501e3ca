-- ===== src/RiskRegistry.antt =====
-- The contract contracts/risk_registry.
pub mod State
pub mod Admin
pub mod Profiles
pub mod Effects
pub mod Steps
pub mod Cooldown
