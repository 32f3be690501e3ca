-- ===== src/InvoiceNft/Admin.antt =====
-- contracts/invoice_nft/src/lib.rs: deployment, wiring, freezing, the currency list and upgrades.
use stellar_invoice_finance.Prelude.{ℕ, true, none, some, ltb, update, is_some}
use stellar_invoice_finance.Shared.{
  Env, Address, Symbol, Hash, Action, ◌>>=◌, ◌>>◌, gets, ok_or, lift, reject_if, modify, add_u64,
  require_auth, already_initialized, no_upgrade_proposed, upgrade_timelock_not_elapsed,
}
use stellar_invoice_finance.Shared.Validation.{
  require_not_self, require_distinct, upgrade_timelock_delay,
}
use stellar_invoice_finance.InvoiceNft.State.{InvoiceNft, load_invoice, require_admin}

unfoldable pub initialize : Env → Address → Address → Action InvoiceNft (Unit {0})
initialize env admin access_control = do
  reject_if (is_some (← gets (λ s. s.admin))) already_initialized
  lift (require_not_self env admin)
  lift (require_not_self env access_control)
  lift (require_distinct admin access_control)
  modify (λ s. record s {
    admin = some admin;
    access_control = some access_control;
    next_invoice_id = some 1;
    migration_version = some 1;
  })

unfoldable pub set_risk_registry : Env → Address → Address → Action InvoiceNft (Unit {0})
set_risk_registry env admin risk_registry = do
  require_auth env admin
  require_admin admin
  lift (require_not_self env risk_registry)
  modify (λ s. record s { risk_registry = some risk_registry })

unfoldable pub set_authorized_callers :
    Env → Address → Address → Address → Action InvoiceNft (Unit {0})
set_authorized_callers env admin marketplace financing_pool = do
  require_auth env admin
  require_admin admin
  modify (λ s. record s { marketplace = some marketplace; financing_pool = some financing_pool })

unfoldable pub freeze_invoice : Env → Address → ℕ → Action InvoiceNft (Unit {0})
freeze_invoice env admin invoice_id = do
  require_auth env admin
  require_admin admin
  _ ← load_invoice invoice_id
  modify (λ s. record s { invoice_frozen = update s.invoice_frozen invoice_id (some true) })

unfoldable pub unfreeze_invoice : Env → Address → ℕ → Action InvoiceNft (Unit {0})
unfreeze_invoice env admin invoice_id = do
  require_auth env admin
  require_admin admin
  _ ← load_invoice invoice_id
  modify (λ s. record s { invoice_frozen = update s.invoice_frozen invoice_id none })

unfoldable pub propose_upgrade : Env → Address → Hash → Action InvoiceNft (Unit {0})
propose_upgrade env admin new_wasm_hash = do
  require_auth env admin
  require_admin admin
  modify (λ s. record s { upgrade_proposal = some (new_wasm_hash, env.now) })

unfoldable pub execute_upgrade : Env → Address → Action InvoiceNft (Unit {0})
execute_upgrade env admin = do
  require_auth env admin
  require_admin admin
  proposal ← ok_or (← gets (λ s. s.upgrade_proposal)) no_upgrade_proposed
  ready ← add_u64 proposal.1 upgrade_timelock_delay
  reject_if (ltb env.now ready) upgrade_timelock_not_elapsed
  modify (λ s. record s { upgrade_proposal = none })
  modify (λ s. record s { wasm = some proposal.0 })

unfoldable pub add_allowed_currency : Env → Address → Symbol → Action InvoiceNft (Unit {0})
add_allowed_currency env admin currency = do
  require_auth env admin
  require_admin admin
  modify (λ s. record s { currency_allowlist = update s.currency_allowlist currency (some true) })

unfoldable pub remove_allowed_currency : Env → Address → Symbol → Action InvoiceNft (Unit {0})
remove_allowed_currency env admin currency = do
  require_auth env admin
  require_admin admin
  modify (λ s. record s { currency_allowlist = update s.currency_allowlist currency none })
