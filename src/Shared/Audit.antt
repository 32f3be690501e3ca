-- ===== src/Shared/Audit.antt =====
-- contracts/shared/src/audit.rs, and the ring buffer that access_control, risk_registry and treasury
-- each keep: the same code in the three contracts, but for the source that it records.
pub mod Ring
use stellar_invoice_finance.Prelude.{
  ℕ, zero, suc, ◌+◌, ◌-◌, ◌*◌, ◌%◌, ◌^◌, Option, none, some, List, [], ◌∷◌, ltb, leb, ◌==◌,
  if◌then◌else◌, update, get_or,
}
use stellar_invoice_finance.Shared.Host.{
  Env, Address, Outcome, ok, err, panic, Action, ◌>>=◌, ◌>>◌, gets, modify, add_u64,
}

abbrev pub max_audit_log_size : ℕ
max_audit_log_size = 500

pub data AuditSource : Type 0 where
  access_control treasury risk_registry : AuditSource

-- The kinds of admin action of all contracts.
pub data AdminActionType : Type 0 where
  pause unpause grant_role revoke_role transfer_admin configure_multisig : AdminActionType
  propose_upgrade execute_upgrade multisig_execute_action : AdminActionType
  propose_parameter execute_parameter : AdminActionType
  set_fee_bps whitelist_token withdraw emergency_withdraw propose_withdrawal_cap : AdminActionType
  execute_withdrawal_cap treasury_propose_upgrade treasury_execute_upgrade : AdminActionType
  add_verifier remove_verifier record_default registry_transfer_admin : AdminActionType
  registry_propose_upgrade registry_execute_upgrade : AdminActionType

pub record AdminAuditEntry : Type 0 where
  pub sequence : ℕ
  pub timestamp : ℕ
  pub actor : Address
  pub action : AdminActionType
  pub source : AuditSource

-- The keys `AuditLogHead`, `AuditLogTotal` and `AuditEntry(n)`.
pub record AuditLog : Type 0 where
  pub audit_log_head : Option ℕ
  pub audit_log_total : Option ℕ
  pub audit_entry : ℕ → Option AdminAuditEntry

abbrev pub empty_log : AuditLog
empty_log = record { audit_log_head = none; audit_log_total = none; audit_entry = λ n. none }

abbrev pub head_of : AuditLog → ℕ
head_of l = get_or l.audit_log_head 0

abbrev pub count : AuditLog → ℕ
count l = get_or l.audit_log_total 0

unfoldable pub append_entry :
    AuditSource → Env → Address → AdminActionType → Action AuditLog (Unit {0})
append_entry source env actor action = do
  total ← gets count
  head ← gets head_of
  let entry : AdminAuditEntry = record {
    sequence = total;
    timestamp = env.now;
    actor = actor;
    action = action;
    source = source;
  }
  modify (λ l. record l { audit_entry = update l.audit_entry head (some entry) })
  next ← add_u64 head 1
  modify (λ l. record l { audit_log_head = some (next % max_audit_log_size) })
  next_total ← add_u64 total 1
  modify (λ l. record l { audit_log_total = some next_total })

-- The loop of `get_audit_log`, on the rounds that are left: it stops at `stored`.
unfoldable pub audit_entries_from :
    (ℕ → Option AdminAuditEntry) → ℕ → ℕ → ℕ → ℕ → List AdminAuditEntry
audit_entries_from entry head stored offset zero = []
audit_entries_from entry head stored offset (suc rounds) =
    let rest = audit_entries_from entry head stored (offset + 1) rounds in
    if leb stored offset
    then []
    else elim (entry ((head + max_audit_log_size - 1 - offset) % max_audit_log_size)) [
      | none ↦ rest
      | some e ↦ e ∷ rest
    ]

abbrev pub clamp_page_size : ℕ → ℕ
clamp_page_size n = if n == 0 then 1 else if leb n 50 then n else 50

unfoldable pub page_of : AuditLog → ℕ → ℕ → List AdminAuditEntry
page_of l page page_size =
    let size = clamp_page_size page_size in
    let total = count l in
    let stored = (if leb total max_audit_log_size then total else max_audit_log_size) in
    let product = page * size in
    let skip = (if ltb product (2 ^ 64) then product else 2 ^ 64 - 1) in
    audit_entries_from l.audit_entry (head_of l) stored skip size
