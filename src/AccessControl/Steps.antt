-- ===== src/AccessControl/Steps.antt =====
-- The calls of contracts/access_control/src/lib.rs as a step relation, and what holds in every state
-- that they reach.
pub mod Invariant
use stellar_invoice_finance.Prelude.{
  ℕ, zero, suc, ◌+◌, ◌≡◌, ◌≢◌, ◌≤◌, ◌<◌, Bool, true, false, Option, none, some, List, [], ◌∷◌, ◌++◌,
  arith, update, get_or, contains, ◌==◌, if◌then◌else◌, refl, Every, Every-some, Every-update,
  Distinct, Distinct-append_last, sym, Bool-cases, inl, inr,
}
use stellar_invoice_finance.Shared.{
  Env, Address, Hash, Outcome, ok, err, MultisigConfig, Proposal, AdminAction, ParameterKey,
  ParameterProposal,
}
use stellar_invoice_finance.AccessControl.State.{
  AccessControl, Role, fresh, is_valid_parameter, key_index, get_parameter,
}
use stellar_invoice_finance.Shared.Audit.{AdminActionType, AuditLog}
use stellar_invoice_finance.Shared.Audit.Ring
use stellar_invoice_finance.AccessControl.Admin
use stellar_invoice_finance.AccessControl.Multisig
use stellar_invoice_finance.AccessControl.Governance
use stellar_invoice_finance.AccessControl.AuditLog.{
  IsAuditLog, total, appended, appended-IsAuditLog,
}
use stellar_invoice_finance.AccessControl.Effects
use stellar_invoice_finance.AccessControl.Quorum
use stellar_invoice_finance.AccessControl.Quorum.{performed}

-- One successful call, by anybody, at any time. A call that fails leaves the state as it was.
pub data Step (s s' : AccessControl) : Type 0 where
  initialize : (env : Env) (a : Address) → Admin.initialize env a s ≡ ok (tt, s') → Step s s'
  pause : (env : Env) (a : Address) → Admin.pause env a s ≡ ok (tt, s') → Step s s'
  unpause : (env : Env) (a : Address) → Admin.unpause env a s ≡ ok (tt, s') → Step s s'
  grant_role :
      (env : Env) (a target : Address) (role : Role)
      → Admin.grant_role env a target role s ≡ ok (tt, s')
      → Step s s'
  revoke_role :
      (env : Env) (a target : Address) → Admin.revoke_role env a target s ≡ ok (tt, s') → Step s s'
  transfer_admin :
      (env : Env) (a b : Address) → Admin.transfer_admin env a b s ≡ ok (tt, s') → Step s s'
  configure_multisig :
      (env : Env) (a : Address) (signers : List Address) (threshold : ℕ)
      → Admin.configure_multisig env a signers threshold s ≡ ok (tt, s')
      → Step s s'
  propose_upgrade :
      (env : Env) (a : Address) (hash : Hash)
      → Admin.propose_upgrade env a hash s ≡ ok (tt, s')
      → Step s s'
  execute_upgrade :
      (env : Env) (a : Address) → Admin.execute_upgrade env a s ≡ ok (tt, s') → Step s s'
  propose_action :
      (env : Env) (a : Address) (action : AdminAction) (n : ℕ)
      → Multisig.propose_action env a action s ≡ ok (n, s')
      → Step s s'
  approve_action :
      (env : Env) (a : Address) (n : ℕ)
      → Multisig.approve_action env a n s ≡ ok (tt, s')
      → Step s s'
  execute_action :
      (env : Env) (a : Address) (n : ℕ)
      → Multisig.execute_action env a n s ≡ ok (tt, s')
      → Step s s'
  propose_parameter_change :
      (env : Env) (a : Address) (key : ParameterKey) (v n : ℕ)
      → Governance.propose_parameter_change env a key v s ≡ ok (n, s')
      → Step s s'
  vote_parameter_change :
      (env : Env) (a : Address) (n : ℕ)
      → Governance.vote_parameter_change env a n s ≡ ok (tt, s')
      → Step s s'
  execute_parameter_change :
      (env : Env) (a : Address) (n : ℕ)
      → Governance.execute_parameter_change env a n s ≡ ok (tt, s')
      → Step s s'

pub data Reach (s : AccessControl) : AccessControl → Type 0 where
  here : Reach s s
  next : {t u : AccessControl} → Reach s t → Step t u → Reach s u

abbrev pub IsVoted : Proposal → Type 0
IsVoted p = Distinct p.approvals

abbrev pub IsEligible : ParameterProposal → Type 0
IsEligible p = Distinct p.approvals × (is_valid_parameter p.key p.new_value ≡ true)

-- The invariant, on the fields that it speaks of.
pub record Sound (audit : AuditLog) (proposal : ℕ → Option Proposal) (next_id : ℕ)
    (parameter_proposal : ℕ → Option ParameterProposal) (next_param_id : ℕ)
    (parameter : ℕ → Option ℕ) : Type 0 where
  pub ring : Ring.IsAuditLog audit
  pub unused : (n : ℕ) → next_id ≤ n → proposal n ≡ none
  pub voted : (n : ℕ) → Every IsVoted (proposal n)
  pub unused_param : (n : ℕ) → next_param_id ≤ n → parameter_proposal n ≡ none
  pub eligible : (n : ℕ) → Every IsEligible (parameter_proposal n)
  pub governed :
      (key : ParameterKey)
      → Every (λ v. is_valid_parameter key v ≡ true) (parameter (key_index key))

abbrev pub IsSound : AccessControl → Type 0
IsSound s =
    Sound s.audit s.proposal (get_or s.next_proposal_id 1) s.parameter_proposal
      (get_or s.next_param_proposal_id 1) s.parameter

pub fresh-IsSound : IsSound fresh
fresh-IsSound = record {
  ring = record { at_head = refl; kept = λ k h l. absurd (omega arith) };
  unused = λ n h. refl;
  voted = λ n. tt;
  unused_param = λ n h. refl;
  eligible = λ n. tt;
  governed = λ key. tt;
}

pub appended-IsSound :
    (env : Env) (a : Address) (k : AdminActionType) (s : AccessControl)
    → IsSound s
    → IsSound (appended env a k s)
appended-IsSound env a k s v = record {
  ring = appended-IsAuditLog env a k s v.ring;
  unused = v.unused;
  voted = v.voted;
  unused_param = v.unused_param;
  eligible = v.eligible;
  governed = v.governed;
}

pub performed-IsSound :
    (action : AdminAction) (s : AccessControl) → IsSound s → IsSound (performed action s)
performed-IsSound AdminAction.pause s v = v
performed-IsSound AdminAction.unpause s v = v
performed-IsSound (AdminAction.grant_role target n) s v = v
performed-IsSound (AdminAction.revoke_role target) s v = v
performed-IsSound (AdminAction.transfer_admin b) s v = v
