-- ===== src/Marketplace.antt =====
-- The contract contracts/marketplace.
pub mod State
pub mod Admin
pub mod Listings
pub mod Funding
pub mod Cancellation
pub mod Guards
pub mod Book
pub mod Kept
pub mod Ended
pub mod Listed
pub mod Enlisted
pub mod Funded
pub mod Payment
pub mod Contribution
pub mod Steps
pub mod Refinement
pub mod Invariant
pub mod Final
pub mod Rates
pub mod Fees
pub mod Liveness
pub mod Completion
