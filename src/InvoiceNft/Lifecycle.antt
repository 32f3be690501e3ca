-- ===== src/InvoiceNft/Lifecycle.antt =====
-- contracts/invoice_nft/src/lib.rs: the transitions that the marketplace, the pool and the admin make.
use stellar_invoice_finance.Prelude.{ℕ, not, some, leb}
use stellar_invoice_finance.Shared.{
  Env, Address, Action, ◌>>=◌, ◌>>◌, reject_if, modify, require_auth, InvoiceStatus, status_eq,
  invalid_invoice_status,
}
use stellar_invoice_finance.AccessControl.State.{AccessControl}
use stellar_invoice_finance.InvoiceNft.State.{
  InvoiceNft, with_guard, load_invoice, save_invoice, require_admin, require_authorized_caller,
  require_not_paused, release_exposure,
}

unfoldable pub set_listed : Env → AccessControl → Address → ℕ → Action InvoiceNft (Unit {0})
set_listed env ac caller invoice_id = do
  require_auth env caller
  require_authorized_caller caller (λ s. s.marketplace)
  require_not_paused ac
  with_guard (do
    invoice ← load_invoice invoice_id
    reject_if (not (status_eq invoice.status InvoiceStatus.created)) invalid_invoice_status
    modify (save_invoice invoice_id (record invoice { status = InvoiceStatus.listed })))

unfoldable pub set_funded : Env → AccessControl → Address → ℕ → Action InvoiceNft (Unit {0})
set_funded env ac caller invoice_id = do
  require_auth env caller
  require_authorized_caller caller (λ s. s.financing_pool)
  require_not_paused ac
  with_guard (do
    invoice ← load_invoice invoice_id
    reject_if (not (status_eq invoice.status InvoiceStatus.listed)) invalid_invoice_status
    modify (
        save_invoice invoice_id
          (record invoice { status = InvoiceStatus.funded; funded_at = some env.now })))

unfoldable pub set_repaid : Env → AccessControl → Address → ℕ → Action InvoiceNft (Unit {0})
set_repaid env ac caller invoice_id = do
  require_auth env caller
  require_authorized_caller caller (λ s. s.financing_pool)
  require_not_paused ac
  invoice ← load_invoice invoice_id
  reject_if (not (status_eq invoice.status InvoiceStatus.funded)) invalid_invoice_status
  modify (
      save_invoice invoice_id
        (record invoice { status = InvoiceStatus.repaid; repaid_at = some env.now }))
  modify (release_exposure invoice)

unfoldable pub set_defaulted : Env → Address → ℕ → Action InvoiceNft (Unit {0})
set_defaulted env caller invoice_id = do
  require_auth env caller
  require_admin caller
  with_guard (do
    invoice ← load_invoice invoice_id
    reject_if (not (status_eq invoice.status InvoiceStatus.funded)) invalid_invoice_status
    reject_if (leb env.now invoice.due_date) invalid_invoice_status
    modify (save_invoice invoice_id (record invoice { status = InvoiceStatus.defaulted }))
    modify (release_exposure invoice))
