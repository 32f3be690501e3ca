-- ===== src/FinancingPool.antt =====
-- The contract contracts/financing_pool.
pub mod State
pub mod Admin
pub mod Positions
pub mod Pages
pub mod Shares
pub mod Market
pub mod Yield
pub mod Payouts
pub mod Repayment
pub mod Settlement
pub mod Owed
pub mod Paid
pub mod Closing
pub mod Repaid
pub mod Buyout
pub mod Released
pub mod Ledger
pub mod Turns
pub mod Accepted
pub mod Steps
pub mod Life
pub mod Invariant
