-- ===== src/AccessControl/Execution.antt =====
-- contracts/access_control/src/lib.rs: a multisig action needs distinct approvals and runs once, and
-- a governed parameter changes only by votes that have waited.
use stellar_invoice_finance.Prelude.{
  ℕ, ◌≡◌, ◌≢◌, ◌≤◌, true, some, arith, contains, length, refl, Every-some, Distinct,
}
use stellar_invoice_finance.Shared.{
  AdminAction, Env, Address, ok, MultisigConfig, Proposal, ParameterKey,
}
use stellar_invoice_finance.AccessControl.State.{
  AccessControl, fresh, is_valid_parameter, get_parameter,
}
use stellar_invoice_finance.AccessControl.Multisig.{execute_action}
use stellar_invoice_finance.AccessControl.Governance.{execute_parameter_change}
use stellar_invoice_finance.AccessControl.After
use stellar_invoice_finance.AccessControl.Effects
use stellar_invoice_finance.AccessControl.Quorum
use stellar_invoice_finance.AccessControl.Quorum.{performed}
use stellar_invoice_finance.AccessControl.Steps.{
  Step, Reach, here, next, IsVoted, IsSound, fresh-IsSound,
}
use stellar_invoice_finance.AccessControl.Steps.Invariant.{Step-IsSound, Reach-IsSound}

performed-proposal :
    (action : AdminAction) (s : AccessControl) → (performed action s).proposal ≡ s.proposal
performed-proposal AdminAction.pause s = refl
performed-proposal AdminAction.unpause s = refl
performed-proposal (AdminAction.grant_role t r) s = refl
performed-proposal (AdminAction.revoke_role t) s = refl
performed-proposal (AdminAction.transfer_admin b) s = refl

-- A proposal that was executed is never written again.
Step-executed :
    {s s' : AccessControl}
    → Step s s'
    → IsSound s
    → (n : ℕ) (p : Proposal) → s.proposal n ≡ some p
    → p.executed ≡ true
    → s'.proposal n ≡ some p
Step-executed (Step.initialize env a h) v n p e x = rw (Effects.initialize-eq_ok env a _ _ h).2 e
Step-executed (Step.pause env a h) v n p e x = rw (Effects.pause-eq_ok env a _ _ h).3 e
Step-executed (Step.unpause env a h) v n p e x = rw (Effects.unpause-eq_ok env a _ _ h).3 e
Step-executed (Step.grant_role env a t r h) v n p e x =
    rw (Effects.grant_role-eq_ok env a t r _ _ h).3 e
Step-executed (Step.revoke_role env a t h) v n p e x =
    rw (Effects.revoke_role-eq_ok env a t _ _ h).3 e
Step-executed (Step.transfer_admin env a b h) v n p e x =
    rw (Effects.transfer_admin-eq_ok env a b _ _ h).3 e
Step-executed (Step.configure_multisig env a l t h) v n p e x =
    rw (Effects.configure_multisig-eq_ok env a l t _ _ h).3 e
Step-executed (Step.propose_upgrade env a w h) v n p e x =
    rw (Effects.propose_upgrade-eq_ok env a w _ _ h).1 e
Step-executed (Step.execute_upgrade env a h) v n p e x =
    rw (Effects.execute_upgrade-eq_ok env a _ _ h).1.3 e
Step-executed (Step.propose_action env a action k h) v n p e x =
    let (config, by, id, e') = Quorum.propose_action-eq_ok env a action _ _ k h in
    rw e' (ground (arith, v.unused n))
Step-executed (Step.approve_action env a k h) v n p e x =
    let (config, q, by, f, live, date, new, e') = Quorum.approve_action-eq_ok env a k _ _ h in
    rw e' (ground arith)
Step-executed {s} (Step.execute_action env a k h) v n p e x =
    let (config, q, by, f, ready, e') = Quorum.execute_action-eq_ok env a k _ _ h in
    rw (e', performed-proposal q.action (After.execute_action k q s)) (ground arith)
Step-executed (Step.propose_parameter_change env a k y m h) v n p e x =
    rw (Quorum.propose_parameter_change-eq_ok env a k y _ _ m h).4 e
Step-executed (Step.vote_parameter_change env a k h) v n p e x =
    rw (Quorum.vote_parameter_change-eq_ok env a k _ _ h).6 e
Step-executed (Step.execute_parameter_change env a k h) v n p e x =
    rw (Quorum.execute_parameter_change-eq_ok env a k _ _ h).5 e

Reach-executed :
    {s s' : AccessControl}
    → Reach s s'
    → IsSound s
    → (n : ℕ) (p : Proposal) → s.proposal n ≡ some p
    → p.executed ≡ true
    → s'.proposal n ≡ some p
Reach-executed here v n p e x = e
Reach-executed (next r st) v n p e x =
    Step-executed st (Reach-IsSound r v) n p (Reach-executed r v n p e x) x

execute_action-marks :
    (env : Env) (a : Address) (n : ℕ) (s s' : AccessControl)
    → execute_action env a n s ≡ ok (tt, s')
    → (p : Proposal) × (s'.proposal n ≡ some p) × (p.executed ≡ true)
execute_action-marks env a n s s' h =
    let (config, q, by, f, ready, e') = Quorum.execute_action-eq_ok env a n _ _ h in
    (
      record q { executed = true },
      rw (e', performed-proposal q.action (After.execute_action n q s)) (ground arith),
      refl,
    )

-- A multisig action runs at most once: after a call of `execute_action` has succeeded in a state
-- that calls reach from deployment, no later call of it with the same proposal succeeds, by whoever
-- and whenever, whatever calls came between.
pub execute_action_once :
    (env : Env) (a : Address) (n : ℕ) (s s1 s2 : AccessControl)
    → Reach fresh s
    → execute_action env a n s ≡ ok (tt, s1)
    → Reach s1 s2
    → (env' : Env) (b : Address) (s3 : AccessControl) → execute_action env' b n s2 ≢ ok (tt, s3)
execute_action_once env a n s s1 s2 r h r' env' b s3 h' =
    let (p, e, x) = execute_action-marks env a n s s1 h in
    let (config, q, by, f, ready, e') = Quorum.execute_action-eq_ok env' b n s2 s3 h' in
    let v = Step-IsSound (Step.execute_action env a n h) (Reach-IsSound r fresh-IsSound) in
    ground (arith, Reach-executed r' v n p e x)

-- A multisig action that succeeds, in a state that calls reach from deployment, has at least the
-- configured threshold of approvals, by addresses that are all different, and its caller is a
-- configured signer who authorised the call.
pub execute_action_quorum :
    (env : Env) (a : Address) (n : ℕ) (s s' : AccessControl)
    → Reach fresh s
    → execute_action env a n s ≡ ok (tt, s')
    → (config : MultisigConfig) × (p : Proposal) × (s.multisig_config ≡ some config)
      × (s.proposal n ≡ some p)
      × (config.threshold ≤ length p.approvals)
      × Distinct p.approvals
      × (env.auth a ≡ true)
      × (contains a config.signers ≡ true)
execute_action_quorum env a n s s' r h =
    let (config, p, by, f, ready, e') = Quorum.execute_action-eq_ok env a n s s' h in
    let v = Reach-IsSound r fresh-IsSound in
    (config, p, by.1, f, ready.2, Every-some IsVoted _ p (v.voted n) f, by.0, by.2)

abbrev pub max_value : ParameterKey → ℕ
max_value ParameterKey.fee_bps = 10000
max_value ParameterKey.late_penalty_bps = 10000
max_value ParameterKey.max_risk_score = 100

valid-le : (key : ParameterKey) (v : ℕ) → is_valid_parameter key v ≡ true → v ≤ max_value key
valid-le ParameterKey.fee_bps v h = ground arith
valid-le ParameterKey.late_penalty_bps v h = ground arith
valid-le ParameterKey.max_risk_score v h = ground arith

-- In every state that calls reach from deployment, a governed parameter that is set has a value in
-- its range: at most 10000 basis points for the fee and the late penalty, at most 100 for the risk
-- score.
pub get_parameter-le :
    (s : AccessControl)
    → Reach fresh s
    → (key : ParameterKey) (v : ℕ) → get_parameter s key ≡ some v
    → v ≤ max_value key
get_parameter-le s r key v e = valid-le key v (
    Every-some (λ x. is_valid_parameter key x ≡ true) _ v
      ((Reach-IsSound r fresh-IsSound).governed key) e)
