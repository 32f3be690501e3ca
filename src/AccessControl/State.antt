-- ===== src/AccessControl/State.antt =====
-- contracts/access_control/src/lib.rs: storage, its helpers, the views and the audit log.
use stellar_invoice_finance.Prelude.{
  ℕ, Bool, true, false, not, Option, none, List, leb, ◌==◌, get_or, contains,
}
use stellar_invoice_finance.Shared.{
  Env, Address, Hash, Action, ◌>>=◌, gets, ok_or, zoom, reject_if, MultisigConfig, Proposal,
  ParameterKey, ParameterProposal, not_initialized, not_admin, multisig_not_configured,
  signer_not_found, invalid_parameter_value, proposal_not_found, parameter_proposal_not_found,
}
use stellar_invoice_finance.Shared.Reentrancy
use stellar_invoice_finance.Shared.Audit.{
  AuditSource, AdminActionType, AdminAuditEntry, AuditLog, empty_log, append_entry, page_of,
}

pub data Role : Type 0 where
  admin operator verifier unassigned : Role

abbrev pub role_eq : Role → Role → Bool
role_eq Role.admin Role.admin = true
role_eq Role.operator Role.operator = true
role_eq Role.verifier Role.verifier = true
role_eq Role.unassigned Role.unassigned = true
role_eq _ _ = false

abbrev pub key_index : ParameterKey → ℕ
key_index ParameterKey.fee_bps = 0
key_index ParameterKey.late_penalty_bps = 1
key_index ParameterKey.max_risk_score = 2

-- One field for each `DataKey`, `none` where the key is absent; `wasm` is the deployed code.
pub record AccessControl : Type 0 where
  pub admin : Option Address
  pub paused : Option Bool
  pub role : Address → Option Role
  pub upgrade_proposal : Option (Hash × ℕ)
  pub multisig_config : Option MultisigConfig
  pub next_proposal_id : Option ℕ
  pub proposal : ℕ → Option Proposal
  pub parameter_proposal : ℕ → Option ParameterProposal
  pub next_param_proposal_id : Option ℕ
  pub parameter : ℕ → Option ℕ
  pub audit : AuditLog
  pub lock : Bool
  pub wasm : Option Hash

abbrev pub fresh : AccessControl
fresh = record {
  admin = none;
  paused = none;
  role = λ a. none;
  upgrade_proposal = none;
  multisig_config = none;
  next_proposal_id = none;
  proposal = λ n. none;
  parameter_proposal = λ n. none;
  next_param_proposal_id = none;
  parameter = λ k. none;
  audit = empty_log;
  lock = false;
  wasm = none;
}

abbrev pub set_lock : Bool → AccessControl → AccessControl
set_lock b s = record s { lock = b }

abbrev pub with_guard : {A : Type 0} → Action AccessControl A → Action AccessControl A
with_guard = Reentrancy.with_guard (λ (s : AccessControl). s.lock) set_lock

abbrev pub require_admin : Address → Action AccessControl (Unit {0})
require_admin caller = do
  stored ← ok_or (← gets (λ s. s.admin)) not_initialized
  reject_if (not (stored == caller)) not_admin

abbrev pub load_multisig_config : Action AccessControl MultisigConfig
load_multisig_config = do ok_or (← gets (λ s. s.multisig_config)) multisig_not_configured

abbrev pub require_signer : MultisigConfig → Address → Action AccessControl (Unit {0})
require_signer config caller = reject_if (not (contains caller config.signers)) signer_not_found

abbrev pub is_valid_parameter : ParameterKey → ℕ → Bool
is_valid_parameter ParameterKey.fee_bps value = leb value 10000
is_valid_parameter ParameterKey.late_penalty_bps value = leb value 10000
is_valid_parameter ParameterKey.max_risk_score value = leb value 100

abbrev pub require_valid_parameter : ParameterKey → ℕ → Action AccessControl (Unit {0})
require_valid_parameter key value =
    reject_if (not (is_valid_parameter key value)) invalid_parameter_value

unfoldable pub append_audit_entry :
    Env → Address → AdminActionType → Action AccessControl (Unit {0})
append_audit_entry env actor action =
    zoom (λ (s : AccessControl). s.audit) (λ l s. record s { audit = l })
      (append_entry AuditSource.access_control env actor action)

unfoldable pub get_audit_log : AccessControl → ℕ → ℕ → List AdminAuditEntry
get_audit_log s page page_size = page_of s.audit page page_size

abbrev pub is_paused : AccessControl → Bool
is_paused s = get_or s.paused false

abbrev pub get_role : AccessControl → Address → Role
get_role s address = get_or (s.role address) Role.unassigned

abbrev pub has_role : AccessControl → Address → Role → Bool
has_role s address role = role_eq (get_or (s.role address) Role.unassigned) role

abbrev pub get_parameter : AccessControl → ParameterKey → Option ℕ
get_parameter s key = s.parameter (key_index key)

abbrev pub get_admin : Action AccessControl Address
get_admin = do ok_or (← gets (λ s. s.admin)) not_initialized

abbrev pub get_proposal : ℕ → Action AccessControl Proposal
get_proposal id = do ok_or (← gets (λ s. s.proposal id)) proposal_not_found

abbrev pub get_multisig_config : Action AccessControl MultisigConfig
get_multisig_config = load_multisig_config

abbrev pub get_parameter_proposal : ℕ → Action AccessControl ParameterProposal
get_parameter_proposal id = do
  ok_or (← gets (λ s. s.parameter_proposal id)) parameter_proposal_not_found
