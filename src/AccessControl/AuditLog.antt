-- ===== src/AccessControl/AuditLog.antt =====
-- The audit log of contracts/access_control/src/lib.rs behind `get_audit_log`.
use stellar_invoice_finance.Prelude.{
  ℕ, ◌+◌, ◌-◌, ◌*◌, ◌^◌, ◌<◌, ◌≡◌, Bool, ◌&&◌, none, some, ltb, if◌then◌else◌, arith,
}
use stellar_invoice_finance.Shared.{Env, Address, ok, panic}
use stellar_invoice_finance.Shared.Audit.{AuditSource, AdminActionType, clamp_page_size, count}
use stellar_invoice_finance.Shared.Audit.Ring
use stellar_invoice_finance.Shared.Audit.Ring.{sequence_at}
use stellar_invoice_finance.AccessControl.State.{AccessControl, append_audit_entry, get_audit_log}

abbrev pub total : AccessControl → ℕ
total s = count s.audit

abbrev pub IsAuditLog : AccessControl → Type 0
IsAuditLog s = Ring.IsAuditLog s.audit

abbrev pub has_room : AccessControl → Bool
has_room s = Ring.has_room s.audit

-- The state after an entry is written.
abbrev pub appended : Env → Address → AdminActionType → AccessControl → AccessControl
appended env actor a s = record s {
  audit = Ring.appended AuditSource.access_control env actor a s.audit;
}

pub append_audit_entry_lem :
    (env : Env) (actor : Address) (a : AdminActionType) (s : AccessControl)
    → append_audit_entry env actor a s
      ≡ (if has_room s then ok (tt, appended env actor a s) else panic)
unfolding append_audit_entry
append_audit_entry_lem env actor a s =
    ground (arith, Ring.append_entry_lem AuditSource.access_control env actor a s.audit)

pub appended-IsAuditLog :
    (env : Env) (actor : Address) (a : AdminActionType) (s : AccessControl)
    → IsAuditLog s
    → IsAuditLog (appended env actor a s)
appended-IsAuditLog env actor a s v =
    Ring.appended-IsAuditLog AuditSource.access_control env actor a s.audit v

-- A page of the audit log is exact: its entry `i` is the action with the sequence number
-- `total - 1 - (page * size + i)`, newest first, for each `i` below the clamped size that is among
-- the last 500 actions, and it has no other entries, in every state with a sound ring buffer and
-- for every page and page size of 32 bits.
pub get_audit_log-sequence_at :
    (s : AccessControl)
    → IsAuditLog s
    → (page page_size i : ℕ) → page < 2 ^ 32
    → page_size < 2 ^ 32
    → sequence_at (get_audit_log s page page_size) i ≡ (
        let size = clamp_page_size page_size in
        let k = page * size + i in
        if ltb i size && (ltb k (total s) && ltb k 500) then some (total s - 1 - k) else none)
unfolding get_audit_log
get_audit_log-sequence_at s v page page_size i hp hs =
    Ring.page_of-sequence_at s.audit v page page_size i hp hs
