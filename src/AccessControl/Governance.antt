-- ===== src/AccessControl/Governance.antt =====
-- contracts/access_control/src/lib.rs: parameter changes by vote and timelock.
use stellar_invoice_finance.Prelude.{
  ℕ, true, false, some, [], ◌∷◌, ◌++◌, ltb, update, get_or, length, contains,
}
use stellar_invoice_finance.Shared.{
  Env, Address, Action, ◌>>=◌, ◌>>◌, pure, gets, ok_or, reject_if, modify, add_u64, checked_add_u64,
  require_auth, ParameterKey, ParameterProposal, parameter_proposal_not_found,
  parameter_proposal_executed, already_voted, governance_threshold_not_met,
  governance_timelock_not_elapsed, arithmetic_overflow,
}
use stellar_invoice_finance.Shared.Validation.{upgrade_timelock_delay}
use stellar_invoice_finance.AccessControl.State.{
  AccessControl, key_index, load_multisig_config, require_signer, require_valid_parameter,
  append_audit_entry,
}
use stellar_invoice_finance.Shared.Audit.{AdminActionType}

abbrev pub governance_timelock_delay : ℕ
governance_timelock_delay = upgrade_timelock_delay

unfoldable pub propose_parameter_change : Env → Address → ParameterKey → ℕ → Action AccessControl ℕ
propose_parameter_change env proposer key new_value = do
  require_auth env proposer
  config ← load_multisig_config
  require_signer config proposer
  require_valid_parameter key new_value
  proposal_id ← gets (λ s. get_or s.next_param_proposal_id 1)
  let proposal : ParameterProposal = record {
    id = proposal_id;
    key = key;
    new_value = new_value;
    proposer = proposer;
    approvals = proposer ∷ [];
    created_at = env.now;
    executed = false;
  }
  modify (λ s. record s {
    parameter_proposal = update s.parameter_proposal proposal_id (some proposal);
  })
  next ← ok_or (checked_add_u64 proposal_id 1) arithmetic_overflow
  modify (λ s. record s { next_param_proposal_id = some next })
  append_audit_entry env proposer AdminActionType.propose_parameter
  pure proposal_id

unfoldable pub vote_parameter_change : Env → Address → ℕ → Action AccessControl (Unit {0})
vote_parameter_change env signer proposal_id = do
  require_auth env signer
  config ← load_multisig_config
  require_signer config signer
  proposal ← ok_or (← gets (λ s. s.parameter_proposal proposal_id)) parameter_proposal_not_found
  reject_if proposal.executed parameter_proposal_executed
  reject_if (contains signer proposal.approvals) already_voted
  let voted : ParameterProposal = record proposal { approvals = proposal.approvals ++ signer ∷ [] }
  modify
      (λ s. record s { parameter_proposal = update s.parameter_proposal proposal_id (some voted) })

unfoldable pub execute_parameter_change : Env → Address → ℕ → Action AccessControl (Unit {0})
execute_parameter_change env caller proposal_id = do
  require_auth env caller
  config ← load_multisig_config
  require_signer config caller
  proposal ← ok_or (← gets (λ s. s.parameter_proposal proposal_id)) parameter_proposal_not_found
  reject_if proposal.executed parameter_proposal_executed
  reject_if (ltb (length proposal.approvals) config.threshold) governance_threshold_not_met
  ready ← add_u64 proposal.created_at governance_timelock_delay
  reject_if (ltb env.now ready) governance_timelock_not_elapsed
  let executed : ParameterProposal = record proposal { executed = true }
  modify (λ s. record s {
    parameter_proposal = update s.parameter_proposal proposal_id (some executed);
  })
  modify (λ s. record s {
    parameter = update s.parameter (key_index proposal.key) (some proposal.new_value);
  })
  append_audit_entry env caller AdminActionType.execute_parameter
