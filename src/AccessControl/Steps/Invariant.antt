-- ===== src/AccessControl/Steps/Invariant.antt =====
-- The invariant of contracts/access_control/src/lib.rs along any history of calls.
use stellar_invoice_finance.Prelude.{
  ℕ, ◌+◌, ◌≡◌, ◌≤◌, ◌<◌, true, Option, none, some, arith, update, get_or, refl, Every, Every-some,
  Every-update, Distinct-append_last,
}
use stellar_invoice_finance.Shared.{Env, Address, ok, ParameterKey}
use stellar_invoice_finance.AccessControl.State.{AccessControl, is_valid_parameter, key_index}
use stellar_invoice_finance.Shared.Audit.{AdminActionType}
use stellar_invoice_finance.AccessControl.Multisig
use stellar_invoice_finance.AccessControl.Governance
use stellar_invoice_finance.AccessControl.After
use stellar_invoice_finance.AccessControl.Effects
use stellar_invoice_finance.AccessControl.Quorum
use stellar_invoice_finance.AccessControl.Quorum.{performed}
use stellar_invoice_finance.AccessControl.Steps.{
  Step, Reach, here, next, IsVoted, IsEligible, IsSound, appended-IsSound, performed-IsSound,
}

used_id :
    {A : Type 0} (f : ℕ → Option A) (bound n : ℕ) {p : A}
    → ((k : ℕ) → bound ≤ k → f k ≡ none)
    → f n ≡ some p
    → n < bound
used_id f bound n u e = ground (arith, u n)

unused-update :
    {A : Type 0} (f : ℕ → Option A) (bound n : ℕ) (p : Option A)
    → ((k : ℕ) → bound ≤ k → f k ≡ none)
    → (bound' : ℕ) → bound ≤ bound'
    → n < bound'
    → (k : ℕ) → bound' ≤ k
    → update f n p k ≡ none
unused-update f bound n p u bound' le lt k h = ground (arith, u k)

propose_action-IsSound :
    (env : Env) (a : Address) (action : _) (n : ℕ) (s s' : AccessControl)
    → Multisig.propose_action env a action s ≡ ok (n, s')
    → IsSound s
    → IsSound s'
propose_action-IsSound env a action n s s' h v =
    let (config, by, e, e') = Quorum.propose_action-eq_ok env a action s s' n h in
    rw e' (record {
      ring = v.ring;
      unused =
          unused-update s.proposal (get_or s.next_proposal_id 1) n _ v.unused (n + 1) (omega arith)
            (omega arith);
      voted = Every-update IsVoted s.proposal n _ v.voted (refl, tt);
      unused_param = v.unused_param;
      eligible = v.eligible;
      governed = v.governed;
    })

approve_action-IsSound :
    (env : Env) (a : Address) (n : ℕ) (s s' : AccessControl)
    → Multisig.approve_action env a n s ≡ ok (tt, s')
    → IsSound s
    → IsSound s'
approve_action-IsSound env a n s s' h v =
    let (config, p, by, e, live, date, new, e') = Quorum.approve_action-eq_ok env a n s s' h in
    let known = Every-some IsVoted (s.proposal n) p (v.voted n) e in
    rw e' (record {
      ring = v.ring;
      unused =
          unused-update s.proposal (get_or s.next_proposal_id 1) n _ v.unused _ (omega arith)
            (used_id s.proposal _ n v.unused e);
      voted =
          Every-update IsVoted s.proposal n _ v.voted
            (Distinct-append_last a p.approvals known new);
      unused_param = v.unused_param;
      eligible = v.eligible;
      governed = v.governed;
    })

execute_action-IsSound :
    (env : Env) (a : Address) (n : ℕ) (s s' : AccessControl)
    → Multisig.execute_action env a n s ≡ ok (tt, s')
    → IsSound s
    → IsSound s'
execute_action-IsSound env a n s s' h v =
    let (config, p, by, e, ready, e') = Quorum.execute_action-eq_ok env a n s s' h in
    let known = Every-some IsVoted (s.proposal n) p (v.voted n) e in
    rw e' (
      appended-IsSound env a AdminActionType.multisig_execute_action
        (performed p.action (After.execute_action n p s))
        (performed-IsSound p.action (After.execute_action n p s) (record {
          ring = v.ring;
          unused =
              unused-update s.proposal (get_or s.next_proposal_id 1) n _ v.unused _ (omega arith)
                (used_id s.proposal _ n v.unused e);
          voted = Every-update IsVoted s.proposal n _ v.voted known;
          unused_param = v.unused_param;
          eligible = v.eligible;
          governed = v.governed;
        })))

propose_parameter_change-IsSound :
    (env : Env) (a : Address) (key : ParameterKey) (x n : ℕ) (s s' : AccessControl)
    → Governance.propose_parameter_change env a key x s ≡ ok (n, s')
    → IsSound s
    → IsSound s'
propose_parameter_change-IsSound env a key x n s s' h v =
    let (config, by, valid, e, e') = Quorum.propose_parameter_change-eq_ok env a key x s s' n h in
    rw e' (
      appended-IsSound env a AdminActionType.propose_parameter
        (After.propose_parameter_change env a key x n s)
        (record {
          ring = v.ring;
          unused = v.unused;
          voted = v.voted;
          unused_param =
              unused-update s.parameter_proposal (get_or s.next_param_proposal_id 1) n _
                v.unused_param (n + 1) (omega arith) (omega arith);
          eligible =
              Every-update IsEligible s.parameter_proposal n _ v.eligible ((refl, tt), valid);
          governed = v.governed;
        }))

vote_parameter_change-IsSound :
    (env : Env) (a : Address) (n : ℕ) (s s' : AccessControl)
    → Governance.vote_parameter_change env a n s ≡ ok (tt, s')
    → IsSound s
    → IsSound s'
vote_parameter_change-IsSound env a n s s' h v =
    let (config, p, by, e, live, new, e') = Quorum.vote_parameter_change-eq_ok env a n s s' h in
    let known = Every-some IsEligible (s.parameter_proposal n) p (v.eligible n) e in
    rw e' (record {
      ring = v.ring;
      unused = v.unused;
      voted = v.voted;
      unused_param =
          unused-update s.parameter_proposal (get_or s.next_param_proposal_id 1) n _ v.unused_param
            _ (omega arith) (used_id s.parameter_proposal _ n v.unused_param e);
      eligible =
          Every-update IsEligible s.parameter_proposal n _ v.eligible
            (Distinct-append_last a p.approvals known.0 new, known.1);
      governed = v.governed;
    })

governed-update :
    (f : ℕ → Option ℕ) (key : ParameterKey) (x : ℕ)
    → ((k : ParameterKey) → Every (λ v. is_valid_parameter k v ≡ true) (f (key_index k)))
    → is_valid_parameter key x ≡ true
    → (k : ParameterKey)
    → Every (λ v. is_valid_parameter k v ≡ true) (update f (key_index key) (some x) (key_index k))
governed-update f ParameterKey.fee_bps x h e ParameterKey.fee_bps = e
governed-update f ParameterKey.fee_bps x h e ParameterKey.late_penalty_bps =
    h ParameterKey.late_penalty_bps
governed-update f ParameterKey.fee_bps x h e ParameterKey.max_risk_score =
    h ParameterKey.max_risk_score
governed-update f ParameterKey.late_penalty_bps x h e ParameterKey.fee_bps = h ParameterKey.fee_bps
governed-update f ParameterKey.late_penalty_bps x h e ParameterKey.late_penalty_bps = e
governed-update f ParameterKey.late_penalty_bps x h e ParameterKey.max_risk_score =
    h ParameterKey.max_risk_score
governed-update f ParameterKey.max_risk_score x h e ParameterKey.fee_bps = h ParameterKey.fee_bps
governed-update f ParameterKey.max_risk_score x h e ParameterKey.late_penalty_bps =
    h ParameterKey.late_penalty_bps
governed-update f ParameterKey.max_risk_score x h e ParameterKey.max_risk_score = e

execute_parameter_change-IsSound :
    (env : Env) (a : Address) (n : ℕ) (s s' : AccessControl)
    → Governance.execute_parameter_change env a n s ≡ ok (tt, s')
    → IsSound s
    → IsSound s'
execute_parameter_change-IsSound env a n s s' h v =
    let (config, p, by, e, due, e') = Quorum.execute_parameter_change-eq_ok env a n s s' h in
    let known = Every-some IsEligible (s.parameter_proposal n) p (v.eligible n) e in
    rw e' (
      appended-IsSound env a AdminActionType.execute_parameter
        (After.execute_parameter_change n p s)
        (record {
          ring = v.ring;
          unused = v.unused;
          voted = v.voted;
          unused_param =
              unused-update s.parameter_proposal (get_or s.next_param_proposal_id 1) n _
                v.unused_param _ (omega arith) (used_id s.parameter_proposal _ n v.unused_param e);
          eligible = Every-update IsEligible s.parameter_proposal n _ v.eligible known;
          governed = governed-update s.parameter p.key p.new_value v.governed known.1;
        }))

pub Step-IsSound : {s s' : AccessControl} → Step s s' → IsSound s → IsSound s'
Step-IsSound (Step.initialize env a h) v = rw (Effects.initialize-eq_ok env a _ _ h).2 v
Step-IsSound {s} (Step.pause env a h) v =
    rw (Effects.pause-eq_ok env a _ _ h).3
      (appended-IsSound env a AdminActionType.pause (After.pause s) v)
Step-IsSound {s} (Step.unpause env a h) v =
    rw (Effects.unpause-eq_ok env a _ _ h).3
      (appended-IsSound env a AdminActionType.unpause (After.unpause s) v)
Step-IsSound {s} (Step.grant_role env a t r h) v =
    rw (Effects.grant_role-eq_ok env a t r _ _ h).3
      (appended-IsSound env a AdminActionType.grant_role (After.grant_role t r s) v)
Step-IsSound {s} (Step.revoke_role env a t h) v =
    rw (Effects.revoke_role-eq_ok env a t _ _ h).3
      (appended-IsSound env a AdminActionType.revoke_role (After.revoke_role t s) v)
Step-IsSound {s} (Step.transfer_admin env a b h) v =
    rw (Effects.transfer_admin-eq_ok env a b _ _ h).3
      (appended-IsSound env a AdminActionType.transfer_admin (After.transfer_admin a b s) v)
Step-IsSound {s} (Step.configure_multisig env a l t h) v =
    rw (Effects.configure_multisig-eq_ok env a l t _ _ h).3
      (appended-IsSound env a AdminActionType.configure_multisig (After.configure_multisig l t s) v)
Step-IsSound {s} (Step.propose_upgrade env a x h) v =
    rw (Effects.propose_upgrade-eq_ok env a x _ _ h).1
      (appended-IsSound env a AdminActionType.propose_upgrade (After.propose_upgrade env x s) v)
Step-IsSound {s} (Step.execute_upgrade env a h) v =
    let (by, (p, e, due, e')) = Effects.execute_upgrade-eq_ok env a _ _ h in
    rw e' (appended-IsSound env a AdminActionType.execute_upgrade (After.execute_upgrade s) v)
Step-IsSound (Step.propose_action env a x n h) v = propose_action-IsSound env a x n _ _ h v
Step-IsSound (Step.approve_action env a n h) v = approve_action-IsSound env a n _ _ h v
Step-IsSound (Step.execute_action env a n h) v = execute_action-IsSound env a n _ _ h v
Step-IsSound (Step.propose_parameter_change env a k x n h) v =
    propose_parameter_change-IsSound env a k x n _ _ h v
Step-IsSound (Step.vote_parameter_change env a n h) v =
    vote_parameter_change-IsSound env a n _ _ h v
Step-IsSound (Step.execute_parameter_change env a n h) v =
    execute_parameter_change-IsSound env a n _ _ h v

pub Reach-IsSound : {s s' : AccessControl} → Reach s s' → IsSound s → IsSound s'
Reach-IsSound here v = v
Reach-IsSound (next r st) v = Step-IsSound st (Reach-IsSound r v)
