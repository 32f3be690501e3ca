-- ===== src/AccessControl/Multisig.antt =====
-- contracts/access_control/src/lib.rs: propose, approve and execute a multisig action.
use stellar_invoice_finance.Prelude.{
  ℕ, true, false, Option, none, some, [], ◌∷◌, ◌++◌, ltb, ◌==◌, if◌then◌else◌, update, get_or,
  length, contains,
}
use stellar_invoice_finance.Shared.{
  Env, Address, Action, ◌>>=◌, ◌>>◌, pure, gets, ok_or, reject_if, modify, add_u64, checked_add_u64,
  require_auth, AdminAction, Proposal, proposal_not_found, proposal_already_executed,
  proposal_expired, already_approved, threshold_not_met, unauthorized, arithmetic_overflow,
}
use stellar_invoice_finance.AccessControl.State.{
  AccessControl, Role, load_multisig_config, require_signer, append_audit_entry,
}
use stellar_invoice_finance.Shared.Audit.{AdminActionType}

abbrev pub proposal_ttl_ledgers : ℕ
proposal_ttl_ledgers = 120960

unfoldable pub propose_action : Env → Address → AdminAction → Action AccessControl ℕ
propose_action env proposer action = do
  require_auth env proposer
  config ← load_multisig_config
  require_signer config proposer
  proposal_id ← gets (λ s. get_or s.next_proposal_id 1)
  expires_at ← add_u64 env.now proposal_ttl_ledgers
  let proposal : Proposal = record {
    id = proposal_id;
    action = action;
    proposer = proposer;
    approvals = proposer ∷ [];
    executed = false;
    created_at = env.now;
    expires_at = expires_at;
  }
  modify (λ s. record s { proposal = update s.proposal proposal_id (some proposal) })
  next ← ok_or (checked_add_u64 proposal_id 1) arithmetic_overflow
  modify (λ s. record s { next_proposal_id = some next })
  pure proposal_id

unfoldable pub approve_action : Env → Address → ℕ → Action AccessControl (Unit {0})
approve_action env approver proposal_id = do
  require_auth env approver
  config ← load_multisig_config
  require_signer config approver
  proposal ← ok_or (← gets (λ s. s.proposal proposal_id)) proposal_not_found
  reject_if proposal.executed proposal_already_executed
  reject_if (ltb proposal.expires_at env.now) proposal_expired
  reject_if (contains approver proposal.approvals) already_approved
  let approved : Proposal = record proposal { approvals = proposal.approvals ++ approver ∷ [] }
  modify (λ s. record s { proposal = update s.proposal proposal_id (some approved) })

-- The role that a `GrantRole` action's number names.
abbrev pub role_of_number : ℕ → Option Role
role_of_number n =
    if n == 1 then some Role.operator else if n == 2 then some Role.verifier else none

-- The `match proposal.action` of `execute_action`.
unfoldable pub perform : AdminAction → Action AccessControl (Unit {0})
perform AdminAction.pause = modify (λ s. record s { paused = some true })
perform AdminAction.unpause = modify (λ s. record s { paused = some false })
perform (AdminAction.grant_role target role_val) = do
  role ← ok_or (role_of_number role_val) unauthorized
  modify (λ s. record s { role = update s.role target (some role) })
perform (AdminAction.revoke_role target) =
    modify (λ s. record s { role = update s.role target none })
perform (AdminAction.transfer_admin new_admin) =
    modify
      (λ s. record s { admin = some new_admin; role = update s.role new_admin (some Role.admin) })

unfoldable pub execute_action : Env → Address → ℕ → Action AccessControl (Unit {0})
execute_action env executor proposal_id = do
  require_auth env executor
  config ← load_multisig_config
  require_signer config executor
  proposal ← ok_or (← gets (λ s. s.proposal proposal_id)) proposal_not_found
  reject_if proposal.executed proposal_already_executed
  reject_if (ltb proposal.expires_at env.now) proposal_expired
  reject_if (ltb (length proposal.approvals) config.threshold) threshold_not_met
  let executed : Proposal = record proposal { executed = true }
  modify (λ s. record s { proposal = update s.proposal proposal_id (some executed) })
  perform proposal.action
  append_audit_entry env executor AdminActionType.multisig_execute_action
