-- ===== src/AccessControl/Quorum.antt =====
-- What a successful call of a multisig signer in contracts/access_control/src/lib.rs required, and
-- what it left.
use stellar_invoice_finance.Prelude.{
  ℕ, ◌+◌, ◌≡◌, ◌≤◌, Bool, true, false, none, some, arith, update, get_or, contains, length, ◌==◌,
  if◌then◌else◌, refl, Option-cases, inl, inr, ◌||◌,
}
use stellar_invoice_finance.Shared.{
  Env, Address, ok, err, unauthorized, MultisigConfig, Proposal, AdminAction, ParameterKey,
  ParameterProposal,
}
use stellar_invoice_finance.Shared.Validation.{upgrade_timelock_delay}
use stellar_invoice_finance.AccessControl.State.{AccessControl, Role, is_valid_parameter}
use stellar_invoice_finance.Shared.Audit.{AdminActionType}
use stellar_invoice_finance.AccessControl.Multisig.{
  propose_action, approve_action, execute_action, perform,
}
use stellar_invoice_finance.AccessControl.Governance.{
  propose_parameter_change, vote_parameter_change, execute_parameter_change,
}
use stellar_invoice_finance.AccessControl.After
use stellar_invoice_finance.AccessControl.AuditLog.{appended, append_audit_entry_lem}

-- An address has authorised the call, and it is one of the configured signers.
abbrev pub BySigner : Env → Address → MultisigConfig → AccessControl → Type 0
BySigner env a config s =
    (env.auth a ≡ true) × (s.multisig_config ≡ some config) × (contains a config.signers ≡ true)

pub propose_action-eq_ok :
    (env : Env) (a : Address) (action : AdminAction) (s s' : AccessControl) (n : ℕ)
    → propose_action env a action s ≡ ok (n, s')
    → (config : MultisigConfig) × BySigner env a config s
      × (n ≡ get_or s.next_proposal_id 1)
      × (s' ≡ After.propose_action env a action n s)
unfolding propose_action
propose_action-eq_ok env a action s s' n h = elim (Option-cases s.multisig_config) [
  | inl e ↦ absurd (ground arith)
  | inr (config, e) ↦ (config, ground arith, ground arith, ground arith)
]

pub approve_action-eq_ok :
    (env : Env) (a : Address) (n : ℕ) (s s' : AccessControl)
    → approve_action env a n s ≡ ok (tt, s')
    → (config : MultisigConfig) × (p : Proposal) × BySigner env a config s
      × (s.proposal n ≡ some p)
      × (p.executed ≡ false)
      × (env.now ≤ p.expires_at)
      × (contains a p.approvals ≡ false)
      × (s' ≡ After.approve_action a n p s)
unfolding approve_action
approve_action-eq_ok env a n s s' h = elim (Option-cases s.multisig_config) [
  | inl e ↦ absurd (ground arith)
  | inr (config, e) ↦ elim (Option-cases (s.proposal n)) [
    | inl e' ↦ absurd (ground arith)
    | inr (p, e') ↦
        (config, p, ground arith, e', ground arith, ground arith, ground arith, ground arith)
  ]
]

-- The state after the `match` of `execute_action`.
abbrev pub performed : AdminAction → AccessControl → AccessControl
performed AdminAction.pause s = record s { paused = some true }
performed AdminAction.unpause s = record s { paused = some false }
performed (AdminAction.grant_role target n) s = record s {
  role = update s.role target (some (if n == 1 then Role.operator else Role.verifier));
}
performed (AdminAction.revoke_role target) s = record s { role = update s.role target none }
performed (AdminAction.transfer_admin b) s = record s {
  admin = some b;
  role = update s.role b (some Role.admin);
}

abbrev is_known : AdminAction → Bool
is_known (AdminAction.grant_role target n) = n == 1 || n == 2
is_known _ = true

perform_lem :
    (action : AdminAction) (s : AccessControl)
    → perform action s ≡ (if is_known action then ok (tt, performed action s) else err unauthorized)
unfolding perform
perform_lem AdminAction.pause s = refl
perform_lem AdminAction.unpause s = refl
perform_lem (AdminAction.grant_role target n) s = ground arith
perform_lem (AdminAction.revoke_role target) s = refl
perform_lem (AdminAction.transfer_admin b) s = refl

-- A proposal that may be executed: not yet executed, not expired, with enough approvals.
abbrev pub IsReady : Env → MultisigConfig → Proposal → Type 0
IsReady env config p =
    (p.executed ≡ false) × (env.now ≤ p.expires_at) × (config.threshold ≤ length p.approvals)

pub execute_action-eq_ok :
    (env : Env) (a : Address) (n : ℕ) (s s' : AccessControl)
    → execute_action env a n s ≡ ok (tt, s')
    → (config : MultisigConfig) × (p : Proposal) × BySigner env a config s
      × (s.proposal n ≡ some p)
      × IsReady env config p
      × (s'
          ≡ appended env a AdminActionType.multisig_execute_action
              (performed p.action (After.execute_action n p s)))
unfolding execute_action
execute_action-eq_ok env a n s s' h = elim (Option-cases s.multisig_config) [
  | inl e ↦ absurd (ground arith)
  | inr (config, e) ↦ elim (Option-cases (s.proposal n)) [
    | inl e' ↦ absurd (ground arith)
    | inr (p, e') ↦
        let performs = perform_lem p.action (After.execute_action n p s) in
        let appends =
          append_audit_entry_lem env a AdminActionType.multisig_execute_action
            (performed p.action (After.execute_action n p s)) in
        (config, p, ground arith, e', ground arith, ground arith)
  ]
]

pub propose_parameter_change-eq_ok :
    (env : Env) (a : Address) (key : ParameterKey) (v : ℕ) (s s' : AccessControl) (n : ℕ)
    → propose_parameter_change env a key v s ≡ ok (n, s')
    → (config : MultisigConfig) × BySigner env a config s
      × (is_valid_parameter key v ≡ true)
      × (n ≡ get_or s.next_param_proposal_id 1)
      × (s'
          ≡ appended env a AdminActionType.propose_parameter
              (After.propose_parameter_change env a key v n s))
unfolding propose_parameter_change
propose_parameter_change-eq_ok env a key v s s' n h = elim (Option-cases s.multisig_config) [
  | inl e ↦ absurd (ground arith)
  | inr (config, e) ↦
      let m : ℕ = get_or s.next_param_proposal_id 1 in
      let appends =
        append_audit_entry_lem env a AdminActionType.propose_parameter
          (After.propose_parameter_change env a key v m s) in
      (config, ground arith, ground arith, ground arith, ground arith)
]

pub vote_parameter_change-eq_ok :
    (env : Env) (a : Address) (n : ℕ) (s s' : AccessControl)
    → vote_parameter_change env a n s ≡ ok (tt, s')
    → (config : MultisigConfig) × (p : ParameterProposal) × BySigner env a config s
      × (s.parameter_proposal n ≡ some p)
      × (p.executed ≡ false)
      × (contains a p.approvals ≡ false)
      × (s' ≡ After.vote_parameter_change a n p s)
unfolding vote_parameter_change
vote_parameter_change-eq_ok env a n s s' h = elim (Option-cases s.multisig_config) [
  | inl e ↦ absurd (ground arith)
  | inr (config, e) ↦ elim (Option-cases (s.parameter_proposal n)) [
    | inl e' ↦ absurd (ground arith)
    | inr (p, e') ↦ (config, p, ground arith, e', ground arith, ground arith, ground arith)
  ]
]

-- A parameter change that may be executed: not yet executed, with enough votes, and a day old.
abbrev pub IsDue : Env → MultisigConfig → ParameterProposal → Type 0
IsDue env config p =
    (p.executed ≡ false)
    × (config.threshold ≤ length p.approvals)
    × (p.created_at + upgrade_timelock_delay ≤ env.now)

pub execute_parameter_change-eq_ok :
    (env : Env) (a : Address) (n : ℕ) (s s' : AccessControl)
    → execute_parameter_change env a n s ≡ ok (tt, s')
    → (config : MultisigConfig) × (p : ParameterProposal) × BySigner env a config s
      × (s.parameter_proposal n ≡ some p)
      × IsDue env config p
      × (s'
          ≡ appended env a AdminActionType.execute_parameter (After.execute_parameter_change n p s))
unfolding execute_parameter_change
execute_parameter_change-eq_ok env a n s s' h = elim (Option-cases s.multisig_config) [
  | inl e ↦ absurd (ground arith)
  | inr (config, e) ↦ elim (Option-cases (s.parameter_proposal n)) [
    | inl e' ↦ absurd (ground arith)
    | inr (p, e') ↦
        let appends =
          append_audit_entry_lem env a AdminActionType.execute_parameter
            (After.execute_parameter_change n p s) in
        (config, p, ground arith, e', ground arith, ground arith)
  ]
]
