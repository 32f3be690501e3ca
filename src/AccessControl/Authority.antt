-- ===== src/AccessControl/Authority.antt =====
-- contracts/access_control/src/lib.rs: who can change the pause flag, the admin, the roles and the
-- code, and what the transfer of the admin role leaves.
use stellar_invoice_finance.Prelude.{
  ℕ, ◌≡◌, ◌≢◌, ◌+◌, Option, true, false, none, some, arith, refl, sym,
}
use stellar_invoice_finance.Shared.{
  Env, Address, ok, err, not_admin, MultisigConfig, Proposal, AdminAction,
}
use stellar_invoice_finance.AccessControl.State.{AccessControl, Role, is_paused, get_role}
use stellar_invoice_finance.Shared.Audit.{AdminActionType}
use stellar_invoice_finance.AccessControl.Admin.{pause, unpause, transfer_admin}
use stellar_invoice_finance.AccessControl.Multisig.{execute_action}
use stellar_invoice_finance.AccessControl.After
use stellar_invoice_finance.AccessControl.Effects
use stellar_invoice_finance.AccessControl.Effects.{ByAdmin}
use stellar_invoice_finance.AccessControl.Quorum
use stellar_invoice_finance.AccessControl.Quorum.{BySigner, IsReady}
use stellar_invoice_finance.AccessControl.AuditLog.{
  appended, append_audit_entry_lem, has_room, total,
}
use stellar_invoice_finance.AccessControl.Steps.{Step}

-- The environment and the caller of a call, and the proposal that it executes.
abbrev pub call_of : {s s' : AccessControl} → Step s s' → Env × Address × Option ℕ
call_of (Step.initialize env a h) = (env, a, none)
call_of (Step.pause env a h) = (env, a, none)
call_of (Step.unpause env a h) = (env, a, none)
call_of (Step.grant_role env a target role h) = (env, a, none)
call_of (Step.revoke_role env a target h) = (env, a, none)
call_of (Step.transfer_admin env a b h) = (env, a, none)
call_of (Step.configure_multisig env a signers threshold h) = (env, a, none)
call_of (Step.propose_upgrade env a hash h) = (env, a, none)
call_of (Step.execute_upgrade env a h) = (env, a, none)
call_of (Step.propose_action env a action n h) = (env, a, none)
call_of (Step.approve_action env a n h) = (env, a, none)
call_of (Step.execute_action env a n h) = (env, a, some n)
call_of (Step.propose_parameter_change env a key v n h) = (env, a, none)
call_of (Step.vote_parameter_change env a n h) = (env, a, none)
call_of (Step.execute_parameter_change env a n h) = (env, a, none)

-- What gives control over the protocol to the call by `a` in `env`: the contract has no admin yet, `a`
-- is its admin and authorised the call, or `a` is a signer who executes a proposal that is ready.
pub data Authorised (env : Env) (a : Address) (executed : Option ℕ) (s : AccessControl)
    : Type 0 where
  deploying : s.admin ≡ none → Authorised env a executed s
  by_admin : ByAdmin env a s → Authorised env a executed s
  by_quorum :
      (config : MultisigConfig) (n : ℕ) (p : Proposal)
      → BySigner env a config s
      → executed ≡ some n
      → s.proposal n ≡ some p
      → IsReady env config p
      → Authorised env a executed s

-- The pause flag, the admin, the roles and the code are as they were.
abbrev pub Keeps : AccessControl → AccessControl → Type 0
Keeps s s' = (s'.paused ≡ s.paused) × (s'.admin ≡ s.admin) × (s'.role ≡ s.role) × (s'.wasm ≡ s.wasm)

pause-eq_not_admin :
    (env : Env) (a b : Address) (s : AccessControl)
    → s.admin ≡ some b
    → b ≢ a
    → env.auth a ≡ true
    → pause env a s ≡ err not_admin
unfolding pause
pause-eq_not_admin env a b s e ne auth = ground arith

transfer_admin-eq_not_admin :
    (env : Env) (a b c : Address) (s : AccessControl)
    → s.admin ≡ some b
    → b ≢ a
    → env.auth a ≡ true
    → transfer_admin env a c s ≡ err not_admin
unfolding transfer_admin
transfer_admin-eq_not_admin env a b c s e ne auth = ground arith

-- After `transfer_admin` has succeeded, the new admin holds the admin role, the old one holds no
-- role, and the old admin can neither pause nor transfer the role again: such a call, authorised by
-- the old admin, returns `NotAdmin`.
pub transfer_admin_hands_over :
    (env env' : Env) (a b c : Address) (s s' : AccessControl)
    → transfer_admin env a b s ≡ ok (tt, s')
    → env'.auth a ≡ true
    → (s'.admin ≡ some b)
      × (get_role s' b ≡ Role.admin)
      × (get_role s' a ≡ Role.unassigned)
      × (pause env' a s' ≡ err not_admin)
      × (transfer_admin env' a c s' ≡ err not_admin)
transfer_admin_hands_over env env' a b c s s' h auth =
    let (by, ne, other, e) = Effects.transfer_admin-eq_ok env a b s s' h in
    let now_admin : s'.admin ≡ some b = rw e in
    (
      now_admin,
      rw e (ground arith),
      rw e (ground arith),
      pause-eq_not_admin env' a b s' now_admin ne auth,
      transfer_admin-eq_not_admin env' a b c s' now_admin ne auth,
    )

unpause_succeeds :
    (env : Env) (a : Address) (s : AccessControl)
    → ByAdmin env a s
    → is_paused s ≡ true
    → s.lock ≡ false
    → has_room s ≡ true
    → unpause env a s
      ≡ ok (tt, record (appended env a AdminActionType.unpause (After.unpause s)) { lock = false })
unfolding unpause
unpause_succeeds env a s by paused free room =
    ground (arith, append_audit_entry_lem env a AdminActionType.unpause (After.unpause s))

-- `pause` can be undone: after it has succeeded, `unpause` by the same admin, authorised again,
-- succeeds while the audit counters have room, and the pause flag reads, and the admin and the
-- roles are, as before both calls, with two more entries in the audit log.
pub pause-unpause :
    (env env' : Env) (a : Address) (s s1 : AccessControl)
    → pause env a s ≡ ok (tt, s1)
    → env'.auth a ≡ true
    → has_room s1 ≡ true
    → (s2 : AccessControl) × (unpause env' a s1 ≡ ok (tt, s2))
      × (is_paused s2 ≡ is_paused s)
      × (s2.admin ≡ s.admin)
      × (s2.role ≡ s.role)
      × (total s2 ≡ total s + 2)
pause-unpause env env' a s s1 h auth room =
    let (by, running, free, e) = Effects.pause-eq_ok env a s s1 h in
    (
      record (appended env' a AdminActionType.unpause (After.unpause s1)) { lock = false },
      unpause_succeeds env' a s1 (auth, rw e by.1) (rw e) (rw e) room,
      sym running,
      rw e,
      rw e,
      rw e (omega arith),
    )

-- A multisig transfer of the admin role does not take the role from the old admin: when
-- `execute_action` has carried out a proposal to transfer it to `b`, every other address has the
-- role that it had, the old admin's included.
pub execute_action_transfer_keeps_roles :
    (env : Env) (a b c : Address) (n : ℕ) (p : Proposal) (s s' : AccessControl)
    → execute_action env a n s ≡ ok (tt, s')
    → s.proposal n ≡ some p
    → p.action ≡ AdminAction.transfer_admin b
    → c ≢ b
    → (s'.admin ≡ some b) × (get_role s' c ≡ get_role s c)
execute_action_transfer_keeps_roles env a b c n p s s' h e t ne =
    let (config, q, by, f, ready, e') = Quorum.execute_action-eq_ok env a n s s' h in
    let same : q ≡ p = ground arith in rw (e', same, t) (refl, ground arith)
