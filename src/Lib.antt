-- ===== src/Lib.antt =====
-- Kora, an invoice-financing protocol on Soroban: the contracts of contracts/.
--
-- An SME mints an invoice in invoice_nft; the marketplace lists it and investors fund it; the
-- financing pool holds the investors' positions, takes the repayment and distributes it; the treasury
-- keeps the fees. The contract
-- access_control holds the pause flag, the roles, the multisig signers and the governed parameters;
-- risk_registry holds the SMEs' profiles, and price_oracle the exchange rates.
--
-- Which file models which code:
--   Prelude          Boolean tests, i128 arithmetic with its checks, maps as functions and as sorted
--                    lists, sets of distinct members
--   Shared/Host      the host: ledger time, authorisation, results, and actions on a contract's state
--   Shared/Errors    contracts/shared/src/errors.rs
--   Shared/Types     contracts/shared/src/types.rs
--   Shared/Validation, Shared/Cid, Shared/Reentrancy
--                    contracts/shared/src/validation.rs and reentrancy.rs
--   Shared/Audit     contracts/shared/src/audit.rs and the ring buffer that the contracts keep
--   AccessControl    contracts/access_control/src/lib.rs: State, Admin, Multisig, Governance
--   Shared/Token     the calls of token contracts, which are not part of the repository
--   RiskRegistry     contracts/risk_registry/src/lib.rs: State, Admin, Profiles
--   PriceOracle      contracts/price_oracle/src/lib.rs
--   FinancingPool    contracts/financing_pool/src/lib.rs: State, Admin, Positions, Market, Yield,
--                    Repayment, Settlement
--   Treasury         contracts/treasury/src/lib.rs: State, Admin, Withdrawal
--   Marketplace      contracts/marketplace/src/lib.rs: State, Admin, Listings, Funding, Cancellation;
--                    Book is what it promises, which Refinement relates to the code
--   InvoiceNft       contracts/invoice_nft/src/lib.rs: State, Mint, Lifecycle, Admin, Migrate
--   Tests            runs of the contracts and the instances of the theorems
--
-- How the code corresponds. A contract's state is a record with one field for each storage key, an
-- option where the key can be absent and a function where the key has an argument. An entry point is
-- the definition of the same name, an action on that state: it returns a value and the new state, or
-- an error of `KoraError`, or it panics, as an addition beyond 64 bits, an `unwrap` of nothing and a
-- signature that is missing do. A call that does not return a value changes nothing, as the host rolls
-- it back. `Env` gives the ledger's timestamp, the contract's own address and who has authorised the
-- call. The contract that a call reads from is an argument with its state; where a call of the financing pool
-- or of the marketplace changes other contracts, its state is a `World` of them, and an error of the
-- called contract is a panic of the caller. A step of the marketplace may also be any change of the
-- other contracts. Amounts are integers with
-- the checks of i128 written out; u64 and u32 additions are checked against their widths. The steps of
-- a contract (`Step`, `Reach`) are its successful calls, in any order and by anyone; those of invoice_nft
-- and the treasury are the calls after `initialize`.
--
-- The storage format's decoder, with which the migration reads old records, is a parameter; that it
-- reads no record of the new schema as one of the old is a hypothesis, which docs/MIGRATIONS.md states.
-- Token contracts are a parameter too: the decimals of each
-- token, the balances in it, and which transfers it accepts in a call, for
-- any reason, the authorisation of the sender included; a contract's state keeps the transfers that it has asked for,
-- in order. No definition uses fuel: the loops are recursions on the number
-- of rounds that are left.
--
-- Left out: events, which no contract reads, and the extension of storage lifetimes.
pub mod Prelude
pub mod Shared
pub mod AccessControl
pub mod RiskRegistry
pub mod InvoiceNft
pub mod FinancingPool
pub mod PriceOracle
pub mod Treasury
pub mod Marketplace
mod Tests
