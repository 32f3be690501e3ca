-- ===== src/Tests/AccessControl.antt =====
-- A history of contracts/access_control/src/lib.rs: deployment by 1, a multisig of 2 and 3, a pause
-- by quorum and a governed fee.
use stellar_invoice_finance.Prelude.{
  ◌≡◌, ◌≢◌, ◌≤◌, ◌+◌, true, none, some, [], ◌∷◌, refl, arith, length, contains, Distinct,
  if◌then◌else◌, ltb, ◌&&◌, ◌-◌, ◌*◌,
}
use stellar_invoice_finance.Shared.{
  Env, ok, err, not_admin, threshold_not_met, governance_timelock_not_elapsed, AdminAction,
  ParameterKey, MultisigConfig, Proposal,
}
use stellar_invoice_finance.AccessControl.State.{
  AccessControl, fresh, is_paused, get_role, Role, get_audit_log, append_audit_entry,
}
use stellar_invoice_finance.AccessControl.Admin.{
  initialize, configure_multisig, pause, unpause, transfer_admin,
}
use stellar_invoice_finance.AccessControl.Multisig.{
  propose_action, approve_action, execute_action, perform,
}
use stellar_invoice_finance.AccessControl.Governance.{
  propose_parameter_change, vote_parameter_change, execute_parameter_change,
}
use stellar_invoice_finance.AccessControl.AuditLog.{get_audit_log-sequence_at, total}
use stellar_invoice_finance.Shared.Audit.Ring.{sequence_at}
use stellar_invoice_finance.Shared.Audit.{clamp_page_size, append_entry}
use stellar_invoice_finance.AccessControl.Steps.{Step, Reach, here, next, fresh-IsSound}
use stellar_invoice_finance.AccessControl.Steps.Invariant.{Reach-IsSound}
use stellar_invoice_finance.AccessControl.Execution.{
  execute_action_once, execute_action_quorum, get_parameter-le, max_value,
}
use stellar_invoice_finance.Tests.Run.{after_call}
use stellar_invoice_finance.AccessControl.Authority.{
  transfer_admin_hands_over, pause-unpause, execute_action_transfer_keeps_roles,
}

abbrev env : Env
env = record { now = 1000; self = 99; auth = λ a. true }

abbrev later : Env
later = record { now = 90000; self = 99; auth = λ a. true }

abbrev deployed : AccessControl
unfolding initialize
deployed = after_call fresh (initialize env 1 fresh)

abbrev signers : AccessControl
unfolding initialize configure_multisig append_audit_entry append_entry
signers = after_call deployed (configure_multisig env 1 (2 ∷ 3 ∷ []) 2 deployed)

deployed-Reach : Reach fresh deployed
unfolding initialize
deployed-Reach = next here (Step.initialize env 1 refl)

signers-Reach : Reach fresh signers
unfolding initialize configure_multisig append_audit_entry append_entry
signers-Reach = next deployed-Reach (Step.configure_multisig env 1 (2 ∷ 3 ∷ []) 2 refl)

-- Signer 2 proposes to hand the admin role to 5, signer 3 approves, and 2 executes.
abbrev proposed : AccessControl
unfolding initialize configure_multisig append_audit_entry append_entry propose_action
proposed = after_call signers (propose_action env 2 (AdminAction.transfer_admin 5) signers)

abbrev approved : AccessControl
unfolding initialize configure_multisig append_audit_entry append_entry propose_action
    approve_action
approved = after_call proposed (approve_action env 3 1 proposed)

abbrev executed : AccessControl
unfolding initialize configure_multisig append_audit_entry append_entry propose_action
    approve_action execute_action perform
executed = after_call approved (execute_action env 2 1 approved)

approved-Reach : Reach fresh approved
unfolding initialize configure_multisig append_audit_entry append_entry propose_action
    approve_action
approved-Reach =
    next (next signers-Reach (Step.propose_action env 2 (AdminAction.transfer_admin 5) 1 refl))
      (Step.approve_action env 3 1 refl)

too_few : execute_action env 2 1 proposed ≡ err threshold_not_met
unfolding initialize configure_multisig append_audit_entry append_entry propose_action
    execute_action
too_few = refl

new_admin : executed.admin ≡ some 5
unfolding initialize configure_multisig append_audit_entry append_entry propose_action
    approve_action execute_action perform
new_admin = refl

execute_action_once_example : execute_action later 3 1 executed ≢ ok (tt, executed)
unfolding initialize configure_multisig append_audit_entry append_entry propose_action
    approve_action execute_action perform
execute_action_once_example =
    execute_action_once env 2 1 approved executed executed approved-Reach refl here later 3 executed

execute_action_quorum_example :
    (config : MultisigConfig) × (p : Proposal) × (approved.multisig_config ≡ some config)
    × (approved.proposal 1 ≡ some p)
    × (config.threshold ≤ length p.approvals)
    × Distinct p.approvals
    × (env.auth 2 ≡ true)
    × (contains 2 config.signers ≡ true)
unfolding initialize configure_multisig append_audit_entry append_entry propose_action
    approve_action execute_action perform
execute_action_quorum_example = execute_action_quorum env 2 1 approved executed approved-Reach refl

execute_action_transfer_keeps_roles_example :
    (executed.admin ≡ some 5) × (get_role executed 1 ≡ get_role approved 1)
unfolding initialize configure_multisig append_audit_entry append_entry propose_action
    approve_action execute_action perform
execute_action_transfer_keeps_roles_example =
    execute_action_transfer_keeps_roles env 2 5 1 1 _ approved executed refl refl refl (omega arith)

-- A vote on the fee: proposed and seconded at 1000, executed at 90000.
abbrev fee_proposed : AccessControl
unfolding initialize configure_multisig append_audit_entry append_entry propose_parameter_change
fee_proposed = after_call signers (propose_parameter_change env 2 ParameterKey.fee_bps 250 signers)

abbrev fee_voted : AccessControl
unfolding initialize configure_multisig append_audit_entry append_entry propose_parameter_change
    vote_parameter_change
fee_voted = after_call fee_proposed (vote_parameter_change env 3 1 fee_proposed)

abbrev fee_changed : AccessControl
unfolding initialize configure_multisig append_audit_entry append_entry propose_parameter_change
    vote_parameter_change execute_parameter_change
fee_changed = after_call fee_voted (execute_parameter_change later 2 1 fee_voted)

fee_voted-Reach : Reach fresh fee_voted
unfolding initialize configure_multisig append_audit_entry append_entry propose_parameter_change
    vote_parameter_change
fee_voted-Reach =
    next (next signers-Reach (Step.propose_parameter_change env 2 ParameterKey.fee_bps 250 1 refl))
      (Step.vote_parameter_change env 3 1 refl)

fee_changed-Reach : Reach fresh fee_changed
unfolding initialize configure_multisig append_audit_entry append_entry propose_parameter_change
    vote_parameter_change execute_parameter_change
fee_changed-Reach = next fee_voted-Reach (Step.execute_parameter_change later 2 1 refl)

too_early : execute_parameter_change env 2 1 fee_voted ≡ err governance_timelock_not_elapsed
unfolding initialize configure_multisig append_audit_entry append_entry propose_parameter_change
    vote_parameter_change execute_parameter_change
too_early = refl

get_parameter-le_example : 250 ≤ max_value ParameterKey.fee_bps
unfolding initialize configure_multisig append_audit_entry append_entry propose_parameter_change
    vote_parameter_change execute_parameter_change
get_parameter-le_example =
    get_parameter-le fee_changed fee_changed-Reach ParameterKey.fee_bps 250 refl

abbrev handed_over : AccessControl
unfolding initialize append_audit_entry append_entry transfer_admin
handed_over = after_call deployed (transfer_admin env 1 4 deployed)

transfer_admin_hands_over_example :
    (handed_over.admin ≡ some 4)
    × (get_role handed_over 4 ≡ Role.admin)
    × (get_role handed_over 1 ≡ Role.unassigned)
    × (pause env 1 handed_over ≡ err not_admin)
    × (transfer_admin env 1 7 handed_over ≡ err not_admin)
unfolding initialize append_audit_entry append_entry transfer_admin
transfer_admin_hands_over_example =
    transfer_admin_hands_over env env 1 4 7 deployed handed_over refl refl

abbrev paused : AccessControl
unfolding initialize append_audit_entry append_entry pause
paused = after_call deployed (pause env 1 deployed)

pause-unpause_example :
    (s2 : AccessControl) × (unpause later 1 paused ≡ ok (tt, s2))
    × (is_paused s2 ≡ is_paused deployed)
    × (s2.admin ≡ deployed.admin)
    × (s2.role ≡ deployed.role)
    × (total s2 ≡ total deployed + 2)
unfolding initialize append_audit_entry append_entry pause
pause-unpause_example = pause-unpause env later 1 deployed paused refl refl refl

get_audit_log-sequence_at_example : sequence_at (get_audit_log executed 0 10) 0 ≡ (
    let size = clamp_page_size 10 in
    let k = 0 * size + 0 in
    if ltb 0 size && (ltb k (total executed) && ltb k 500)
    then some (total executed - 1 - k)
    else none)
unfolding initialize configure_multisig append_audit_entry append_entry propose_action
    approve_action execute_action perform
get_audit_log-sequence_at_example =
    get_audit_log-sequence_at executed
      (Reach-IsSound (next approved-Reach (Step.execute_action env 2 1 refl)) fresh-IsSound).ring 0
      10 0 (omega arith) (omega arith)
