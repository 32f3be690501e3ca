-- ===== src/AccessControl/Admin.antt =====
-- contracts/access_control/src/lib.rs: the operations that the admin signs alone.
use stellar_invoice_finance.Prelude.{
  ℕ, true, false, not, ◌&&◌, none, some, List, ltb, ◌==◌, if◌then◌else◌, ◌||◌, update, get_or,
  length, is_some,
}
use stellar_invoice_finance.Shared.{
  Env, Address, Hash, Action, ◌>>=◌, ◌>>◌, gets, ok_or, lift, reject_if, modify, add_u64,
  require_auth, already_initialized, already_paused, not_paused, unauthorized, role_not_assigned,
  invalid_address, invalid_threshold, no_upgrade_proposed, upgrade_timelock_not_elapsed,
}
use stellar_invoice_finance.Shared.Validation.{upgrade_timelock_delay, require_not_self}
use stellar_invoice_finance.AccessControl.State.{
  AccessControl, Role, role_eq, is_paused, with_guard, require_admin, append_audit_entry,
}
use stellar_invoice_finance.Shared.Audit.{AdminActionType}

unfoldable pub initialize : Env → Address → Action AccessControl (Unit {0})
initialize env admin = do
  reject_if (is_some (← gets (λ s. s.admin))) already_initialized
  lift (require_not_self env admin)
  modify (λ s. record s {
    admin = some admin;
    paused = some false;
    role = update s.role admin (some Role.admin);
  })

unfoldable pub pause : Env → Address → Action AccessControl (Unit {0})
pause env admin = do
  require_auth env admin
  require_admin admin
  reject_if (← gets is_paused) already_paused
  with_guard (do
    modify (λ s. record s { paused = some true })
    append_audit_entry env admin AdminActionType.pause)

unfoldable pub unpause : Env → Address → Action AccessControl (Unit {0})
unpause env admin = do
  require_auth env admin
  require_admin admin
  reject_if (not (← gets is_paused)) not_paused
  with_guard (do
    modify (λ s. record s { paused = some false })
    append_audit_entry env admin AdminActionType.unpause)

unfoldable pub grant_role : Env → Address → Address → Role → Action AccessControl (Unit {0})
grant_role env admin target role = do
  require_auth env admin
  require_admin admin
  reject_if (role_eq role Role.admin) unauthorized
  reject_if (role_eq role Role.unassigned) unauthorized
  reject_if (target == admin) unauthorized
  modify (λ s. record s { role = update s.role target (some role) })
  append_audit_entry env admin AdminActionType.grant_role

unfoldable pub revoke_role : Env → Address → Address → Action AccessControl (Unit {0})
revoke_role env admin target = do
  require_auth env admin
  require_admin admin
  current_role ← gets (λ s. get_or (s.role target) Role.unassigned)
  reject_if (role_eq current_role Role.admin) unauthorized
  reject_if (role_eq current_role Role.unassigned) role_not_assigned
  modify (λ s. record s { role = update s.role target none })
  append_audit_entry env admin AdminActionType.revoke_role

unfoldable pub transfer_admin : Env → Address → Address → Action AccessControl (Unit {0})
transfer_admin env current_admin new_admin = do
  require_auth env current_admin
  require_admin current_admin
  reject_if (current_admin == new_admin) invalid_address
  lift (require_not_self env new_admin)
  existing ← gets (λ s. get_or (s.role new_admin) Role.unassigned)
  reject_if (not (role_eq existing Role.unassigned) && not (role_eq existing Role.admin))
      unauthorized
  modify (λ s. record s { admin = some new_admin })
  modify (λ s. record s { role = update s.role new_admin (some Role.admin) })
  modify (λ s. record s { role = update s.role current_admin none })
  append_audit_entry env current_admin AdminActionType.transfer_admin

unfoldable pub configure_multisig :
    Env → Address → List Address → ℕ → Action AccessControl (Unit {0})
configure_multisig env admin signers threshold = do
  require_auth env admin
  require_admin admin
  reject_if (threshold == 0 || ltb (length signers) threshold) invalid_threshold
  modify (λ s. record s {
    multisig_config = some (record { threshold = threshold; signers = signers });
    next_proposal_id = if is_some s.next_proposal_id then s.next_proposal_id else some 1;
  })
  append_audit_entry env admin AdminActionType.configure_multisig

unfoldable pub propose_upgrade : Env → Address → Hash → Action AccessControl (Unit {0})
propose_upgrade env admin new_wasm_hash = do
  require_auth env admin
  require_admin admin
  modify (λ s. record s { upgrade_proposal = some (new_wasm_hash, env.now) })
  append_audit_entry env admin AdminActionType.propose_upgrade

unfoldable pub execute_upgrade : Env → Address → Action AccessControl (Unit {0})
execute_upgrade env admin = do
  require_auth env admin
  require_admin admin
  proposal ← ok_or (← gets (λ s. s.upgrade_proposal)) no_upgrade_proposed
  ready ← add_u64 proposal.1 upgrade_timelock_delay
  reject_if (ltb env.now ready) upgrade_timelock_not_elapsed
  modify (λ s. record s { upgrade_proposal = none })
  append_audit_entry env admin AdminActionType.execute_upgrade
  modify (λ s. record s { wasm = some proposal.0 })
