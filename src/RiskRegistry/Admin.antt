-- ===== src/RiskRegistry/Admin.antt =====
-- contracts/risk_registry/src/lib.rs: deployment, the admin, the verifiers and their stakes, and
-- upgrades.
use stellar_invoice_finance.Prelude.{
  ℕ, true, false, none, some, ℤ, pos, ltb, update, is_some, get_or, ltb_ℤ, not,
}
use stellar_invoice_finance.Shared.{
  Env, Address, Hash, Action, ◌>>=◌, ◌>>◌, gets, ok_or, lift, reject_if, modify, add_u64,
  require_auth, already_initialized, not_initialized, not_verifier, insufficient_funds,
  no_upgrade_proposed, upgrade_timelock_not_elapsed, ok,
}
use stellar_invoice_finance.Shared.Validation.{require_not_self, upgrade_timelock_delay}
use stellar_invoice_finance.Shared.Audit.{AdminActionType}
use stellar_invoice_finance.Shared.Token.{Tokens}
use stellar_invoice_finance.RiskRegistry.State.{
  RiskRegistry, require_admin, append_audit_entry, transfer,
}

unfoldable pub initialize :
    Env → Address → Address → Address → ℤ → ℕ → Action RiskRegistry (Unit {0})
initialize env admin invoice_nft staking_token minimum_stake slash_percentage_bps = do
  reject_if (is_some (← gets (λ s. s.admin))) already_initialized
  lift (require_not_self env admin)
  modify (λ s. record s {
    admin = some admin;
    invoice_nft = some invoice_nft;
    staking_token = some staking_token;
    minimum_stake = some minimum_stake;
    slash_percentage = some slash_percentage_bps;
  })

unfoldable pub transfer_admin : Env → Address → Address → Action RiskRegistry (Unit {0})
transfer_admin env admin new_admin = do
  require_auth env admin
  require_admin admin
  modify (λ s. record s { admin = some new_admin })
  append_audit_entry env admin AdminActionType.registry_transfer_admin

unfoldable pub add_verifier : Env → Tokens → Address → Address → ℤ → Action RiskRegistry (Unit {0})
add_verifier env tokens admin verifier stake_amount = do
  require_auth env admin
  require_admin admin
  lift (require_not_self env verifier)
  minimum_stake ← ok_or (← gets (λ s. s.minimum_stake)) not_initialized
  reject_if (ltb_ℤ stake_amount minimum_stake) insufficient_funds
  token_addr ← ok_or (← gets (λ s. s.staking_token)) not_initialized
  transfer tokens token_addr verifier env.self stake_amount
  modify (λ s. record s {
    verifier = update s.verifier verifier (some true);
    verifier_stake = update s.verifier_stake verifier (some stake_amount);
    verifier_reputation = update s.verifier_reputation verifier (some 100);
  })
  append_audit_entry env admin AdminActionType.add_verifier

-- Returns a stake that is positive to the verifier.
unfoldable pub return_stake : Env → Tokens → Address → ℤ → Action RiskRegistry (Unit {0})
return_stake env tokens verifier stake s = elim (ltb_ℤ (pos 0) stake) [
  | true ↦
      (do
        token_addr ← ok_or (← gets (λ s. s.staking_token)) not_initialized
        transfer tokens token_addr env.self verifier stake)
        s
  | false ↦ ok (tt, s)
]

unfoldable pub remove_verifier : Env → Tokens → Address → Address → Action RiskRegistry (Unit {0})
remove_verifier env tokens admin verifier = do
  require_auth env admin
  require_admin admin
  reject_if (not (← gets (λ s. get_or (s.verifier verifier) false))) not_verifier
  stake ← gets (λ s. get_or (s.verifier_stake verifier) (pos 0))
  return_stake env tokens verifier stake
  modify (λ s. record s {
    verifier = update s.verifier verifier none;
    verifier_stake = update s.verifier_stake verifier none;
    verifier_reputation = update s.verifier_reputation verifier none;
  })
  append_audit_entry env admin AdminActionType.remove_verifier

unfoldable pub propose_upgrade : Env → Address → Hash → Action RiskRegistry (Unit {0})
propose_upgrade env admin new_wasm_hash = do
  require_auth env admin
  require_admin admin
  modify (λ s. record s { upgrade_proposal = some (new_wasm_hash, env.now) })
  append_audit_entry env admin AdminActionType.registry_propose_upgrade

unfoldable pub execute_upgrade : Env → Address → Action RiskRegistry (Unit {0})
execute_upgrade env admin = do
  require_auth env admin
  require_admin admin
  proposal ← ok_or (← gets (λ s. s.upgrade_proposal)) no_upgrade_proposed
  ready ← add_u64 proposal.1 upgrade_timelock_delay
  reject_if (ltb env.now ready) upgrade_timelock_not_elapsed
  modify (λ s. record s { upgrade_proposal = none })
  append_audit_entry env admin AdminActionType.registry_execute_upgrade
  modify (λ s. record s { wasm = some proposal.0 })
