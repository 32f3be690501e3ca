-- ===== src/Treasury/Admin.antt =====
-- contracts/treasury/src/lib.rs: deployment, the fee, the token list, incoming fees, the withdrawal
-- cap and upgrades.
use stellar_invoice_finance.Prelude.{
  ℕ, true, none, some, ℤ, pos, ltb, update, is_some, get_or, ltb_ℤ, leb_ℤ, checked_add,
}
use stellar_invoice_finance.Shared.{
  Env, Address, Hash, Action, ◌>>=◌, ◌>>◌, gets, ok_or, lift, reject_if, modify, add_u64,
  require_auth, already_initialized, invalid_amount, arithmetic_overflow, no_cap_change_proposed,
  withdrawal_cap_timelock_not_elapsed, no_upgrade_proposed, upgrade_timelock_not_elapsed,
}
use stellar_invoice_finance.Shared.Validation.{
  require_not_self, require_valid_fee_bps, upgrade_timelock_delay,
}
use stellar_invoice_finance.Shared.Audit.{AdminActionType}
use stellar_invoice_finance.Treasury.State.{
  Treasury, require_admin, require_whitelisted_token, append_audit_entry,
}

unfoldable pub initialize : Env → Address → ℕ → Action Treasury (Unit {0})
initialize env admin fee_bps = do
  reject_if (is_some (← gets (λ s. s.admin))) already_initialized
  lift (require_valid_fee_bps fee_bps)
  lift (require_not_self env admin)
  modify (λ s. record s {
    admin = some admin;
    fee_bps = some fee_bps;
    withdrawal_cap = some (pos 0);
    epoch_start = some env.now;
    epoch_withdrawn = some (pos 0);
  })

unfoldable pub set_fee_bps : Env → Address → ℕ → Action Treasury (Unit {0})
set_fee_bps env admin fee_bps = do
  require_auth env admin
  require_admin admin
  lift (require_valid_fee_bps fee_bps)
  modify (λ s. record s { fee_bps = some fee_bps })
  append_audit_entry env admin AdminActionType.set_fee_bps

unfoldable pub whitelist_token : Env → Address → Address → Action Treasury (Unit {0})
whitelist_token env admin token = do
  require_auth env admin
  require_admin admin
  modify (λ s. record s { whitelisted_token = update s.whitelisted_token token (some true) })
  append_audit_entry env admin AdminActionType.whitelist_token

unfoldable pub collect_fee : Address → ℤ → Action Treasury (Unit {0})
collect_fee token amount = do
  reject_if (leb_ℤ amount (pos 0)) invalid_amount
  require_whitelisted_token token
  current ← gets (λ s. get_or (s.collected token) (pos 0))
  new_total ← ok_or (checked_add current amount) arithmetic_overflow
  modify (λ s. record s { collected = update s.collected token (some new_total) })

unfoldable pub propose_withdrawal_cap : Env → Address → ℤ → Action Treasury (Unit {0})
propose_withdrawal_cap env admin new_cap = do
  require_auth env admin
  require_admin admin
  reject_if (ltb_ℤ new_cap (pos 0)) invalid_amount
  modify (λ s. record s { withdrawal_cap_proposal = some (new_cap, env.now) })
  append_audit_entry env admin AdminActionType.propose_withdrawal_cap

unfoldable pub execute_withdrawal_cap : Env → Address → Action Treasury (Unit {0})
execute_withdrawal_cap env admin = do
  require_auth env admin
  require_admin admin
  proposal ← ok_or (← gets (λ s. s.withdrawal_cap_proposal)) no_cap_change_proposed
  ready ← add_u64 proposal.1 upgrade_timelock_delay
  reject_if (ltb env.now ready) withdrawal_cap_timelock_not_elapsed
  modify (λ s. record s { withdrawal_cap = some proposal.0 })
  modify (λ s. record s { withdrawal_cap_proposal = none })
  append_audit_entry env admin AdminActionType.execute_withdrawal_cap

unfoldable pub propose_upgrade : Env → Address → Hash → Action Treasury (Unit {0})
propose_upgrade env admin new_wasm_hash = do
  require_auth env admin
  require_admin admin
  modify (λ s. record s { upgrade_proposal = some (new_wasm_hash, env.now) })
  append_audit_entry env admin AdminActionType.treasury_propose_upgrade

unfoldable pub execute_upgrade : Env → Address → Action Treasury (Unit {0})
execute_upgrade env admin = do
  require_auth env admin
  require_admin admin
  proposal ← ok_or (← gets (λ s. s.upgrade_proposal)) no_upgrade_proposed
  ready ← add_u64 proposal.1 upgrade_timelock_delay
  reject_if (ltb env.now ready) upgrade_timelock_not_elapsed
  modify (λ s. record s { upgrade_proposal = none })
  append_audit_entry env admin AdminActionType.treasury_execute_upgrade
  modify (λ s. record s { wasm = some proposal.0 })
