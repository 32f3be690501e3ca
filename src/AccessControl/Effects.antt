-- ===== src/AccessControl/Effects.antt =====
-- What a successful call of the admin in contracts/access_control/src/lib.rs required, and what it
-- left.
use stellar_invoice_finance.Prelude.{
  ℕ, ◌+◌, ◌≡◌, ◌≢◌, ◌≤◌, ◌<◌, true, false, none, some, List, arith, update, length, Option-cases,
  inl, inr,
}
use stellar_invoice_finance.Shared.{Env, Address, Hash, ok}
use stellar_invoice_finance.Shared.Validation.{upgrade_timelock_delay}
use stellar_invoice_finance.AccessControl.State.{AccessControl, Role, is_paused, get_role}
use stellar_invoice_finance.Shared.Audit.{AdminActionType}
use stellar_invoice_finance.AccessControl.Admin
use stellar_invoice_finance.AccessControl.After
use stellar_invoice_finance.AccessControl.AuditLog.{appended, append_audit_entry_lem}

-- An address has authorised the call, and it is the admin's.
abbrev pub ByAdmin : Env → Address → AccessControl → Type 0
ByAdmin env a s = (env.auth a ≡ true) × (s.admin ≡ some a)

pub pause-eq_ok :
    (env : Env) (a : Address) (s s' : AccessControl)
    → Admin.pause env a s ≡ ok (tt, s')
    → ByAdmin env a s
      × (is_paused s ≡ false)
      × (s.lock ≡ false)
      × (s' ≡ record (appended env a AdminActionType.pause (After.pause s)) { lock = false })
unfolding Admin.pause
pause-eq_ok env a s s' h =
    ground (arith, append_audit_entry_lem env a AdminActionType.pause (After.pause s))

pub unpause-eq_ok :
    (env : Env) (a : Address) (s s' : AccessControl)
    → Admin.unpause env a s ≡ ok (tt, s')
    → ByAdmin env a s
      × (is_paused s ≡ true)
      × (s.lock ≡ false)
      × (s' ≡ record (appended env a AdminActionType.unpause (After.unpause s)) { lock = false })
unfolding Admin.unpause
unpause-eq_ok env a s s' h =
    ground (arith, append_audit_entry_lem env a AdminActionType.unpause (After.unpause s))

pub grant_role-eq_ok :
    (env : Env) (a target : Address) (role : Role) (s s' : AccessControl)
    → Admin.grant_role env a target role s ≡ ok (tt, s')
    → ByAdmin env a s
      × (target ≢ a)
      × (role ≢ Role.admin)
      × (s' ≡ appended env a AdminActionType.grant_role (After.grant_role target role s))
unfolding Admin.grant_role
grant_role-eq_ok env a target role s s' h = ground (
  arith,
  append_audit_entry_lem env a AdminActionType.grant_role (After.grant_role target role s),
)

pub revoke_role-eq_ok :
    (env : Env) (a target : Address) (s s' : AccessControl)
    → Admin.revoke_role env a target s ≡ ok (tt, s')
    → ByAdmin env a s
      × (get_role s target ≢ Role.admin)
      × (get_role s target ≢ Role.unassigned)
      × (s' ≡ appended env a AdminActionType.revoke_role (After.revoke_role target s))
unfolding Admin.revoke_role
revoke_role-eq_ok env a target s s' h =
    ground
      (arith, append_audit_entry_lem env a AdminActionType.revoke_role (After.revoke_role target s))

pub transfer_admin-eq_ok :
    (env : Env) (a b : Address) (s s' : AccessControl)
    → Admin.transfer_admin env a b s ≡ ok (tt, s')
    → ByAdmin env a s
      × (b ≢ a)
      × (b ≢ env.self)
      × (s' ≡ appended env a AdminActionType.transfer_admin (After.transfer_admin a b s))
unfolding Admin.transfer_admin
transfer_admin-eq_ok env a b s s' h = ground (
  arith,
  append_audit_entry_lem env a AdminActionType.transfer_admin (After.transfer_admin a b s),
)

pub configure_multisig-eq_ok :
    (env : Env) (a : Address) (signers : List Address) (threshold : ℕ) (s s' : AccessControl)
    → Admin.configure_multisig env a signers threshold s ≡ ok (tt, s')
    → ByAdmin env a s
      × (0 < threshold)
      × (threshold ≤ length signers)
      × (s'
          ≡ appended env a AdminActionType.configure_multisig
              (After.configure_multisig signers threshold s))
unfolding Admin.configure_multisig
configure_multisig-eq_ok env a signers threshold s s' h = ground (
  arith,
  append_audit_entry_lem env a AdminActionType.configure_multisig
      (After.configure_multisig signers threshold s),
)

pub propose_upgrade-eq_ok :
    (env : Env) (a : Address) (hash : Hash) (s s' : AccessControl)
    → Admin.propose_upgrade env a hash s ≡ ok (tt, s')
    → ByAdmin env a s
      × (s' ≡ appended env a AdminActionType.propose_upgrade (After.propose_upgrade env hash s))
unfolding Admin.propose_upgrade
propose_upgrade-eq_ok env a hash s s' h = ground (
  arith,
  append_audit_entry_lem env a AdminActionType.propose_upgrade (After.propose_upgrade env hash s),
)

pub initialize-eq_ok :
    (env : Env) (a : Address) (s s' : AccessControl)
    → Admin.initialize env a s ≡ ok (tt, s')
    → (s.admin ≡ none)
      × (a ≢ env.self)
      × (s' ≡ record s {
        admin = some a;
        paused = some false;
        role = update s.role a (some Role.admin);
      })
unfolding Admin.initialize
initialize-eq_ok env a s s' h = ground arith

pub execute_upgrade-eq_ok :
    (env : Env) (a : Address) (s s' : AccessControl)
    → Admin.execute_upgrade env a s ≡ ok (tt, s')
    → ByAdmin env a s
      × ((p : Hash × ℕ) × (s.upgrade_proposal ≡ some p)
          × (p.1 + upgrade_timelock_delay ≤ env.now)
          × (s'
              ≡ record (appended env a AdminActionType.execute_upgrade (After.execute_upgrade s)) {
                wasm = some p.0;
              }))
unfolding Admin.execute_upgrade
execute_upgrade-eq_ok env a s s' h = elim (Option-cases s.upgrade_proposal) [
  | inl e ↦ absurd (
      ground (
        arith,
        append_audit_entry_lem env a AdminActionType.execute_upgrade (After.execute_upgrade s),
      ))
  | inr (p, e) ↦ ground (
    arith,
    append_audit_entry_lem env a AdminActionType.execute_upgrade (After.execute_upgrade s),
  )
]
