-- ===== src/Treasury.antt =====
-- The contract contracts/treasury.
pub mod State
pub mod Admin
pub mod Withdrawal
pub mod Steps
pub mod Frames
pub mod Epoch
pub mod Cap
pub mod Emergency
