-- ===== src/AccessControl/After.antt =====
-- contracts/access_control/src/lib.rs: for each call that succeeds, the state that it makes before
-- it writes the audit log.
use stellar_invoice_finance.Prelude.{
  ℕ, ◌+◌, true, false, none, some, List, [], ◌∷◌, ◌++◌, update, get_or,
}
use stellar_invoice_finance.Shared.{
  Env, Address, Hash, Proposal, AdminAction, ParameterKey, ParameterProposal,
}
use stellar_invoice_finance.AccessControl.State.{AccessControl, Role, key_index}
use stellar_invoice_finance.AccessControl.Multisig.{proposal_ttl_ledgers}

abbrev pub pause : AccessControl → AccessControl
pause s = record s { paused = some true; lock = true }

abbrev pub unpause : AccessControl → AccessControl
unpause s = record s { paused = some false; lock = true }

abbrev pub grant_role : Address → Role → AccessControl → AccessControl
grant_role target role s = record s { role = update s.role target (some role) }

abbrev pub revoke_role : Address → AccessControl → AccessControl
revoke_role target s = record s { role = update s.role target none }

abbrev pub transfer_admin : Address → Address → AccessControl → AccessControl
transfer_admin a b s = record s {
  admin = some b;
  role = update (update s.role b (some Role.admin)) a none;
}

abbrev pub configure_multisig : List Address → ℕ → AccessControl → AccessControl
configure_multisig signers threshold s = record s {
  multisig_config = some (record { threshold = threshold; signers = signers });
  next_proposal_id = some (get_or s.next_proposal_id 1);
}

abbrev pub propose_upgrade : Env → Hash → AccessControl → AccessControl
propose_upgrade env hash s = record s { upgrade_proposal = some (hash, env.now) }

abbrev pub execute_upgrade : AccessControl → AccessControl
execute_upgrade s = record s { upgrade_proposal = none }

abbrev pub propose_action : Env → Address → AdminAction → ℕ → AccessControl → AccessControl
propose_action env a action n s = record s {
  proposal = update s.proposal n (
      some (record {
        id = n;
        action = action;
        proposer = a;
        approvals = a ∷ [];
        executed = false;
        created_at = env.now;
        expires_at = env.now + proposal_ttl_ledgers;
      }));
  next_proposal_id = some (n + 1);
}

abbrev pub approve_action : Address → ℕ → Proposal → AccessControl → AccessControl
approve_action a n p s = record s {
  proposal = update s.proposal n (some (record p { approvals = p.approvals ++ a ∷ [] }));
}

abbrev pub execute_action : ℕ → Proposal → AccessControl → AccessControl
execute_action n p s = record s {
  proposal = update s.proposal n (some (record p { executed = true }));
}

abbrev pub propose_parameter_change :
    Env → Address → ParameterKey → ℕ → ℕ → AccessControl → AccessControl
propose_parameter_change env a key v n s = record s {
  parameter_proposal = update s.parameter_proposal n (
      some (record {
        id = n;
        key = key;
        new_value = v;
        proposer = a;
        approvals = a ∷ [];
        created_at = env.now;
        executed = false;
      }));
  next_param_proposal_id = some (n + 1);
}

abbrev pub vote_parameter_change : Address → ℕ → ParameterProposal → AccessControl → AccessControl
vote_parameter_change a n p s = record s {
  parameter_proposal =
      update s.parameter_proposal n (some (record p { approvals = p.approvals ++ a ∷ [] }));
}

abbrev pub execute_parameter_change : ℕ → ParameterProposal → AccessControl → AccessControl
execute_parameter_change n p s = record s {
  parameter_proposal = update s.parameter_proposal n (some (record p { executed = true }));
  parameter = update s.parameter (key_index p.key) (some p.new_value);
}
