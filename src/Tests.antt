-- ===== src/Tests.antt =====
-- Runs of the contracts at concrete inputs, and instances of the theorems.
mod Run
mod AccessControl
mod InvoiceNft
mod FinancingPool
mod RiskRegistry
mod Treasury
mod Marketplace
mod Listings
mod PoolLife
