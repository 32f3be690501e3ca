-- ===== src/FinancingPool/Admin.antt =====
-- contracts/financing_pool/src/lib.rs: deployment, the concentration cap and upgrades.
use stellar_invoice_finance.Prelude.{ℕ, none, some, ltb, ◌==◌, ◌||◌, is_some}
use stellar_invoice_finance.Shared.{
  Env, Address, Hash, Action, ◌>>=◌, ◌>>◌, gets, ok_or, lift, reject_if, modify, add_u64,
  require_auth, already_initialized, invalid_fee_rate, no_upgrade_proposed,
  upgrade_timelock_not_elapsed,
}
use stellar_invoice_finance.Shared.Validation.{
  require_not_self, require_valid_fee_bps, upgrade_timelock_delay,
}
use stellar_invoice_finance.FinancingPool.State.{FinancingPool, require_admin}

unfoldable pub initialize :
    Env
    → Address
    → Address
    → Address
    → Address
    → Address
    → ℕ
    → Address
    → ℕ
    → Action FinancingPool (Unit {0})
initialize env admin invoice_nft risk_registry treasury access_control late price_oracle cap = do
  reject_if (is_some (← gets (λ s. s.admin))) already_initialized
  lift (require_valid_fee_bps late)
  reject_if (cap == 0 || ltb 10000 cap) invalid_fee_rate
  lift (require_not_self env admin)
  lift (require_not_self env invoice_nft)
  lift (require_not_self env risk_registry)
  lift (require_not_self env treasury)
  lift (require_not_self env access_control)
  modify (λ s. record s {
    admin = some admin;
    invoice_nft = some invoice_nft;
    risk_registry = some risk_registry;
    treasury = some treasury;
    access_control = some access_control;
    late_penalty_bps = some late;
    price_oracle = some price_oracle;
    max_position_bps = some cap;
  })

unfoldable pub set_max_position_bps : Env → Address → ℕ → Action FinancingPool (Unit {0})
set_max_position_bps env admin max_position_bps = do
  require_auth env admin
  require_admin admin
  reject_if (max_position_bps == 0 || ltb 10000 max_position_bps) invalid_fee_rate
  modify (λ s. record s { max_position_bps = some max_position_bps })

unfoldable pub propose_upgrade : Env → Address → Hash → Action FinancingPool (Unit {0})
propose_upgrade env admin new_wasm_hash = do
  require_auth env admin
  require_admin admin
  modify (λ s. record s { upgrade_proposal = some (new_wasm_hash, env.now) })

unfoldable pub execute_upgrade : Env → Address → Action FinancingPool (Unit {0})
execute_upgrade env admin = do
  require_auth env admin
  require_admin admin
  proposal ← ok_or (← gets (λ s. s.upgrade_proposal)) no_upgrade_proposed
  ready ← add_u64 proposal.1 upgrade_timelock_delay
  reject_if (ltb env.now ready) upgrade_timelock_not_elapsed
  modify (λ s. record s { upgrade_proposal = none })
  modify (λ s. record s { wasm = some proposal.0 })
