-- ===== src/InvoiceNft/Steps.antt =====
-- The calls of contracts/invoice_nft/src/lib.rs as a step relation.
pub mod Invariant
use stellar_invoice_finance.Prelude.{ℕ, ◌≡◌, ℤ, Option, some}
use stellar_invoice_finance.Shared.{Env, Address, Symbol, Hash, Bytes, Invoice, Outcome, ok}
use stellar_invoice_finance.AccessControl.State.{AccessControl}
use stellar_invoice_finance.RiskRegistry.State.{RiskRegistry}
use stellar_invoice_finance.InvoiceNft.State.{InvoiceNft, InvoiceV1, fresh}
use stellar_invoice_finance.InvoiceNft.Admin
use stellar_invoice_finance.InvoiceNft.Mint
use stellar_invoice_finance.InvoiceNft.Lifecycle
use stellar_invoice_finance.InvoiceNft.Migrate

-- What the host makes of a record of the new schema that is read as `InvoiceV1`.
abbrev pub Decoder : Type 0
Decoder = Invoice → Outcome (Option InvoiceV1)

-- No record of the new schema reads as one of the old schema: docs/MIGRATIONS.md says that the
-- `InvoiceV1` decoder cannot read it. Whether the host answers that there is none, or traps, is open.
abbrev pub IsStrict : Decoder → Type 0
IsStrict decode = (i : Invoice) (v : InvoiceV1) → decode i ≡ ok (some v) → ⊥

-- One successful call after `initialize`, by anybody, at any time, with the other contracts in any
-- state.
pub data Step (decode : Decoder) (s s' : InvoiceNft) : Type 0 where
  migrate :
      (env : Env) (a : Address) → Migrate.migrate decode env a s ≡ ok (tt, s') → Step decode s s'
  set_risk_registry :
      (env : Env) (a rr : Address)
      → Admin.set_risk_registry env a rr s ≡ ok (tt, s')
      → Step decode s s'
  set_authorized_callers :
      (env : Env) (a market pool : Address)
      → Admin.set_authorized_callers env a market pool s ≡ ok (tt, s')
      → Step decode s s'
  freeze_invoice :
      (env : Env) (a : Address) (id : ℕ)
      → Admin.freeze_invoice env a id s ≡ ok (tt, s')
      → Step decode s s'
  unfreeze_invoice :
      (env : Env) (a : Address) (id : ℕ)
      → Admin.unfreeze_invoice env a id s ≡ ok (tt, s')
      → Step decode s s'
  propose_upgrade :
      (env : Env) (a : Address) (hash : Hash)
      → Admin.propose_upgrade env a hash s ≡ ok (tt, s')
      → Step decode s s'
  execute_upgrade :
      (env : Env) (a : Address) → Admin.execute_upgrade env a s ≡ ok (tt, s') → Step decode s s'
  add_allowed_currency :
      (env : Env) (a : Address) (c : Symbol)
      → Admin.add_allowed_currency env a c s ≡ ok (tt, s')
      → Step decode s s'
  remove_allowed_currency :
      (env : Env) (a : Address) (c : Symbol)
      → Admin.remove_allowed_currency env a c s ≡ ok (tt, s')
      → Step decode s s'
  mint_invoice :
      (env : Env) (ac : AccessControl) (rr : RiskRegistry) (sme : Address) (hash : Bytes)
      (amount : ℤ) (currency : Symbol) (due : ℕ) (cid : Bytes) (score : ℕ) (notes : Option Bytes)
      (id : ℕ)
      → Mint.mint_invoice env ac rr sme hash amount currency due cid score notes s ≡ ok (id, s')
      → Step decode s s'
  amend_invoice :
      (env : Env) (ac : AccessControl) (sme : Address) (id : ℕ) (hash : Bytes) (amount : ℤ)
      (due : ℕ) (cid : Bytes) (score : ℕ)
      → Mint.amend_invoice env ac sme id hash amount due cid score s ≡ ok (tt, s')
      → Step decode s s'
  withdraw_invoice :
      (env : Env) (ac : AccessControl) (sme : Address) (id : ℕ)
      → Mint.withdraw_invoice env ac sme id s ≡ ok (tt, s')
      → Step decode s s'
  commit_metadata_hash :
      (env : Env) (ac : AccessControl) (sme : Address) (id : ℕ) (hash : Bytes)
      → Mint.commit_metadata_hash env ac sme id hash s ≡ ok (tt, s')
      → Step decode s s'
  set_listed :
      (env : Env) (ac : AccessControl) (caller : Address) (id : ℕ)
      → Lifecycle.set_listed env ac caller id s ≡ ok (tt, s')
      → Step decode s s'
  set_funded :
      (env : Env) (ac : AccessControl) (caller : Address) (id : ℕ)
      → Lifecycle.set_funded env ac caller id s ≡ ok (tt, s')
      → Step decode s s'
  set_repaid :
      (env : Env) (ac : AccessControl) (caller : Address) (id : ℕ)
      → Lifecycle.set_repaid env ac caller id s ≡ ok (tt, s')
      → Step decode s s'
  set_defaulted :
      (env : Env) (caller : Address) (id : ℕ)
      → Lifecycle.set_defaulted env caller id s ≡ ok (tt, s')
      → Step decode s s'

pub data Reach (decode : Decoder) (s : InvoiceNft) : InvoiceNft → Type 0 where
  here : Reach decode s s
  next : {t u : InvoiceNft} → Reach decode s t → Step decode t u → Reach decode s u

-- A state that calls reach from the one that `initialize` makes of an empty storage.
pub data Deployed (decode : Decoder) (s : InvoiceNft) : Type 0 where
  deployed :
      (env : Env) (a ac : Address) (s0 : InvoiceNft)
      → Admin.initialize env a ac fresh ≡ ok (tt, s0)
      → Reach decode s0 s
      → Deployed decode s
