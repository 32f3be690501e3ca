-- ===== src/Shared.antt =====
-- The crate contracts/shared: what every contract imports, and the host's conventions.
pub mod Cid
pub mod Audit
pub mod Errors
pub mod Host
pub mod Reentrancy
pub mod Token
pub mod Types
pub mod Validation
pub use Errors.*
pub use Host.*
unfoldable pub use Types.*
