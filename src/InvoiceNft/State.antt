-- ===== src/InvoiceNft/State.antt =====
-- contracts/invoice_nft/src/lib.rs: storage, helpers and views. Time-to-live extensions and events
-- change no value that the contract reads, and are left out.
use stellar_invoice_finance.Prelude.{
  ℕ, ◌-◌, Bool, false, not, Option, none, some, ℤ, pos, ◌==◌, if◌then◌else◌, update, get_or,
  saturating_sub,
}
use stellar_invoice_finance.Shared.{
  Address, Symbol, Hash, Bytes, Outcome, ok, err, panic, Action, ◌>>=◌, gets, ok_or, reject_if,
  Invoice, InvoiceStatus, RiskTier, not_initialized, not_admin, unauthorized, invoice_not_found,
  protocol_paused, currency_not_allowed,
}
use stellar_invoice_finance.Shared.Reentrancy
use stellar_invoice_finance.AccessControl.State.{AccessControl, is_paused}

-- An invoice as schema version 1 stored it: `Invoice` without `metadata_hash` and `notes`.
pub record InvoiceV1 : Type 0 where
  pub id : ℕ
  pub sme : Address
  pub debtor_hash : Bytes
  pub amount : ℤ
  pub currency : Symbol
  pub due_date : ℕ
  pub ipfs_cid : Bytes
  pub risk_score : ℕ
  pub risk_tier : RiskTier
  pub status : InvoiceStatus
  pub created_at : ℕ
  pub funded_at : Option ℕ
  pub repaid_at : Option ℕ

-- What a slot `Invoice(id)` holds.
pub data Stored : Type 0 where
  current : Invoice → Stored
  old : InvoiceV1 → Stored

-- One field for each `DataKey` and for the reentrancy lock, `none` where the key is absent; `wasm`
-- is the deployed code.
pub record InvoiceNft : Type 0 where
  pub invoice : ℕ → Option Stored
  pub next_invoice_id : Option ℕ
  pub admin : Option Address
  pub access_control : Option Address
  pub migration_version : Option ℕ
  pub upgrade_proposal : Option (Hash × ℕ)
  pub marketplace : Option Address
  pub financing_pool : Option Address
  pub risk_registry : Option Address
  pub outstanding_exposure : Address → Option ℤ
  pub currency_allowlist : Symbol → Option Bool
  pub invoice_frozen : ℕ → Option Bool
  pub lock : Bool
  pub wasm : Option Hash

abbrev pub fresh : InvoiceNft
fresh = record {
  invoice = λ n. none;
  next_invoice_id = none;
  admin = none;
  access_control = none;
  migration_version = none;
  upgrade_proposal = none;
  marketplace = none;
  financing_pool = none;
  risk_registry = none;
  outstanding_exposure = λ a. none;
  currency_allowlist = λ c. none;
  invoice_frozen = λ n. none;
  lock = false;
  wasm = none;
}

abbrev pub with_guard : {A : Type 0} → Action InvoiceNft A → Action InvoiceNft A
with_guard = Reentrancy.with_guard (λ (s : InvoiceNft). s.lock) (λ b s. record s { lock = b })

-- A record of the old schema does not decode as `Invoice`: reading it traps.
abbrev pub read_invoice : Option Stored → Outcome Invoice
read_invoice none = err invoice_not_found
read_invoice (some (current i)) = ok i
read_invoice (some (old i)) = panic

abbrev pub load_invoice : ℕ → Action InvoiceNft Invoice
load_invoice id s = elim (read_invoice (s.invoice id)) [
  | ok i ↦ ok (i, s)
  | err e ↦ err e
  | panic ↦ panic
]

abbrev pub save_invoice : ℕ → Invoice → InvoiceNft → InvoiceNft
save_invoice id i s = record s { invoice = update s.invoice id (some (current i)) }

abbrev pub require_admin : Address → Action InvoiceNft (Unit {0})
require_admin caller = do
  stored ← ok_or (← gets (λ s. s.admin)) not_initialized
  reject_if (not (stored == caller)) not_admin

-- `require_authorized_caller` with the one key that each caller of it lists.
abbrev pub require_authorized_caller :
    Address → (InvoiceNft → Option Address) → Action InvoiceNft (Unit {0})
require_authorized_caller caller allowed s = elim (allowed s) [
  | some addr ↦ if addr == caller then ok (tt, s) else err unauthorized
  | none ↦ err unauthorized
]

-- The pause flag is read from the contract at the stored address, whose state is `ac`.
abbrev pub require_not_paused : AccessControl → Action InvoiceNft (Unit {0})
require_not_paused ac = do
  _ ← ok_or (← gets (λ s. s.access_control)) not_initialized
  reject_if (is_paused ac) protocol_paused

abbrev pub require_allowed_currency : Symbol → Action InvoiceNft (Unit {0})
require_allowed_currency currency = do
  allowed ← gets (λ s. get_or (s.currency_allowlist currency) false)
  reject_if (not allowed) currency_not_allowed

-- `prev.saturating_sub(invoice.amount)`, stored for the invoice's SME.
abbrev pub release_exposure : Invoice → InvoiceNft → InvoiceNft
release_exposure i s = record s {
  outstanding_exposure =
      update s.outstanding_exposure i.sme
        (some (saturating_sub (get_or (s.outstanding_exposure i.sme) (pos 0)) i.amount));
}

abbrev pub get_invoice : ℕ → Action InvoiceNft Invoice
get_invoice = load_invoice

abbrev pub next_id : InvoiceNft → ℕ
next_id s = get_or s.next_invoice_id 1

abbrev pub invoice_count : InvoiceNft → ℕ
invoice_count s = get_or s.next_invoice_id 1 - 1

abbrev pub get_outstanding_exposure : InvoiceNft → Address → ℤ
get_outstanding_exposure s sme = get_or (s.outstanding_exposure sme) (pos 0)

abbrev pub is_invoice_frozen : InvoiceNft → ℕ → Bool
is_invoice_frozen s id = get_or (s.invoice_frozen id) false

abbrev pub is_currency_allowed : InvoiceNft → Symbol → Bool
is_currency_allowed s currency = get_or (s.currency_allowlist currency) false
