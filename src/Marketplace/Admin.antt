-- ===== src/Marketplace/Admin.antt =====
-- contracts/marketplace/src/lib.rs: deployment, fees, the token list and upgrades.
use stellar_invoice_finance.Prelude.{ℕ, not, true, false, none, some, ltb, update, is_some, get_or}
use stellar_invoice_finance.Shared.{
  Env, Address, Hash, Action, RiskTier, ◌>>=◌, ◌>>◌, gets, ok_or, lift, reject_if, modify, add_u64,
  require_auth, already_initialized, token_not_whitelisted, no_upgrade_proposed,
  upgrade_timelock_not_elapsed,
}
use stellar_invoice_finance.Shared.Validation.{require_valid_fee_bps, upgrade_timelock_delay}
use stellar_invoice_finance.Marketplace.State.{
  Marketplace, MarketplaceConfig, load_config_as_admin, tier_ordinal,
}

unfoldable pub initialize :
    Address → Address → Address → Address → Address → Address → ℕ → Action Marketplace (Unit {0})
initialize admin invoice_nft financing_pool treasury access_control risk_registry fee_bps = do
  reject_if (is_some (← gets (λ s. s.config))) already_initialized
  lift (require_valid_fee_bps fee_bps)
  modify (λ s. record s {
    admin = some admin;
    invoice_nft = some invoice_nft;
    financing_pool = some financing_pool;
    treasury = some treasury;
    fee_bps = some fee_bps;
    access_control = some access_control;
    risk_registry = some risk_registry;
  })
  let config : MarketplaceConfig = record {
    admin = admin;
    invoice_nft = invoice_nft;
    financing_pool = financing_pool;
    treasury = treasury;
    access_control = access_control;
    risk_registry = risk_registry;
    fee_bps = fee_bps;
    referrer_split_bps = 0;
  }
  modify (λ s. record s { config = some config })

unfoldable pub set_referrer_split_bps : Env → Address → ℕ → Action Marketplace (Unit {0})
set_referrer_split_bps env admin bps = do
  require_auth env admin
  config ← load_config_as_admin admin
  lift (require_valid_fee_bps bps)
  modify (λ s. record s { config = some (record config { referrer_split_bps = bps }) })

unfoldable pub set_fee_bps : Env → Address → ℕ → Action Marketplace (Unit {0})
set_fee_bps env admin bps = do
  require_auth env admin
  config ← load_config_as_admin admin
  lift (require_valid_fee_bps bps)
  modify (λ s. record s { config = some (record config { fee_bps = bps }) })

abbrev pub update_fee_bps : Env → Address → ℕ → Action Marketplace (Unit {0})
update_fee_bps = set_fee_bps

unfoldable pub set_tier_fee_bps : Env → Address → RiskTier → ℕ → Action Marketplace (Unit {0})
set_tier_fee_bps env admin tier bps = do
  require_auth env admin
  _ ← load_config_as_admin admin
  lift (require_valid_fee_bps bps)
  modify (λ s. record s { tier_fee_bps = update s.tier_fee_bps (tier_ordinal tier) (some bps) })

unfoldable pub whitelist_token : Env → Address → Address → Action Marketplace (Unit {0})
whitelist_token env admin token = do
  require_auth env admin
  _ ← load_config_as_admin admin
  modify (λ s. record s { whitelisted_token = update s.whitelisted_token token (some true) })

unfoldable pub remove_token_whitelist : Env → Address → Address → Action Marketplace (Unit {0})
remove_token_whitelist env admin token = do
  require_auth env admin
  _ ← load_config_as_admin admin
  whitelisted ← gets (λ s. get_or (s.whitelisted_token token) false)
  reject_if (not whitelisted) token_not_whitelisted
  modify (λ s. record s { whitelisted_token = update s.whitelisted_token token none })

unfoldable pub propose_upgrade : Env → Address → Hash → Action Marketplace (Unit {0})
propose_upgrade env admin new_wasm_hash = do
  require_auth env admin
  _ ← load_config_as_admin admin
  modify (λ s. record s { upgrade_proposal = some (new_wasm_hash, env.now) })

-- The part of `execute_upgrade` after the check of the admin.
unfoldable pub execute_proposal : Env → Action Marketplace (Unit {0})
execute_proposal env = do
  proposal ← ok_or (← gets (λ s. s.upgrade_proposal)) no_upgrade_proposed
  ready ← add_u64 proposal.1 upgrade_timelock_delay
  reject_if (ltb env.now ready) upgrade_timelock_not_elapsed
  modify (λ s. record s { upgrade_proposal = none })
  modify (λ s. record s { wasm = some proposal.0 })

unfoldable pub execute_upgrade : Env → Address → Action Marketplace (Unit {0})
execute_upgrade env admin = do
  require_auth env admin
  _ ← load_config_as_admin admin
  execute_proposal env
