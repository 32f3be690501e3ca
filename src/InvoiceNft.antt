-- ===== src/InvoiceNft.antt =====
-- contracts/invoice_nft/src/lib.rs: the invoices and their life cycle.
pub mod State
pub mod Mint
pub mod Lifecycle
pub mod Admin
pub mod Migrate
pub mod Effects
pub mod Frames
pub mod Steps
pub mod Edges
pub mod Terms
pub mod Ids
