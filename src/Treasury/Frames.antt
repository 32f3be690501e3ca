-- ===== src/Treasury/Frames.antt =====
-- What the calls of contracts/treasury/src/lib.rs leave of the withdrawal cap and of the epoch.
use stellar_invoice_finance.Prelude.{ℕ, ◌+◌, ◌≤◌, ◌≡◌, arith, true, none, some, ℤ, Option-some}
use stellar_invoice_finance.Shared.{Env, Address, Hash, ok}
use stellar_invoice_finance.Shared.Token.{Tokens}
use stellar_invoice_finance.Shared.Audit.{AdminActionType, AuditSource}
use stellar_invoice_finance.Shared.Audit.Ring.{append_entry_lem}
use stellar_invoice_finance.Treasury.State.{Treasury, append_audit_entry}
use stellar_invoice_finance.Treasury.Admin
use stellar_invoice_finance.Treasury.Withdrawal

abbrev pub SameEpoch : Treasury → Treasury → Type 0
SameEpoch s s' = (s'.epoch_start ≡ s.epoch_start) × (s'.epoch_withdrawn ≡ s.epoch_withdrawn)

abbrev pub SameLimits : Treasury → Treasury → Type 0
SameLimits s s' = (s'.withdrawal_cap ≡ s.withdrawal_cap) × SameEpoch s s'

pub set_fee_bps-SameLimits :
    (env : Env) (a : Address) (bps : ℕ) (s s' : Treasury)
    → Admin.set_fee_bps env a bps s ≡ ok (tt, s')
    → SameLimits s s'
unfolding Admin.set_fee_bps append_audit_entry
set_fee_bps-SameLimits env a bps s s' h =
    let logged = append_entry_lem AuditSource.treasury env a AdminActionType.set_fee_bps s.audit in
    (ground (arith, h, logged), (ground (arith, h, logged), ground (arith, h, logged)))

pub whitelist_token-SameLimits :
    (env : Env) (a token : Address) (s s' : Treasury)
    → Admin.whitelist_token env a token s ≡ ok (tt, s')
    → SameLimits s s'
unfolding Admin.whitelist_token append_audit_entry
whitelist_token-SameLimits env a token s s' h =
    let logged =
      append_entry_lem AuditSource.treasury env a AdminActionType.whitelist_token s.audit in
    (ground (arith, h, logged), (ground (arith, h, logged), ground (arith, h, logged)))

pub collect_fee-SameLimits :
    (token : Address) (amount : ℤ) (s s' : Treasury)
    → Admin.collect_fee token amount s ≡ ok (tt, s')
    → SameLimits s s'
unfolding Admin.collect_fee
collect_fee-SameLimits token amount s s' h =
    (ground (arith, h), (ground (arith, h), ground (arith, h)))

pub propose_withdrawal_cap-SameLimits :
    (env : Env) (a : Address) (limit : ℤ) (s s' : Treasury)
    → Admin.propose_withdrawal_cap env a limit s ≡ ok (tt, s')
    → SameLimits s s'
unfolding Admin.propose_withdrawal_cap append_audit_entry
propose_withdrawal_cap-SameLimits env a limit s s' h =
    let logged =
      append_entry_lem AuditSource.treasury env a AdminActionType.propose_withdrawal_cap s.audit in
    (ground (arith, h, logged), (ground (arith, h, logged), ground (arith, h, logged)))

pub propose_upgrade-SameLimits :
    (env : Env) (a : Address) (x : Hash) (s s' : Treasury)
    → Admin.propose_upgrade env a x s ≡ ok (tt, s')
    → SameLimits s s'
unfolding Admin.propose_upgrade append_audit_entry
propose_upgrade-SameLimits env a x s s' h =
    let logged =
      append_entry_lem AuditSource.treasury env a AdminActionType.treasury_propose_upgrade
        s.audit in
    (ground (arith, h, logged), (ground (arith, h, logged), ground (arith, h, logged)))

pub execute_upgrade-SameLimits :
    (env : Env) (a : Address) (s s' : Treasury)
    → Admin.execute_upgrade env a s ≡ ok (tt, s')
    → SameLimits s s'
unfolding Admin.execute_upgrade append_audit_entry
execute_upgrade-SameLimits env a s s' h =
    let logged =
      append_entry_lem AuditSource.treasury env a AdminActionType.treasury_execute_upgrade
        s.audit in
    (ground (arith, h, logged), (ground (arith, h, logged), ground (arith, h, logged)))

pub emergency_withdraw-SameLimits :
    (env : Env) (tokens : Tokens) (a token recipient : Address) (s s' : Treasury)
    → Withdrawal.emergency_withdraw env tokens a token recipient s ≡ ok (tt, s')
    → SameLimits s s'
unfolding Withdrawal.emergency_withdraw append_audit_entry Withdrawal.drain
emergency_withdraw-SameLimits env tokens a token recipient s s' h =
    let logged =
      append_entry_lem AuditSource.treasury env a AdminActionType.emergency_withdraw s.audit in
    (ground (arith, h, logged), (ground (arith, h, logged), ground (arith, h, logged)))

-- A cap that is changed was proposed at least 24 hours before, and the admin authorised the change.
pub execute_withdrawal_cap-eq_ok :
    (env : Env) (a : Address) (s s' : Treasury)
    → Admin.execute_withdrawal_cap env a s ≡ ok (tt, s')
    → (limit : ℤ) × (proposed_at : ℕ) × (s.withdrawal_cap_proposal ≡ some (limit, proposed_at))
      × (proposed_at + 86400 ≤ env.now)
      × (env.auth a ≡ true)
      × (s.admin ≡ some a)
      × (s'.withdrawal_cap ≡ some limit)
      × (s'.withdrawal_cap_proposal ≡ none)
      × SameEpoch s s'
unfolding Admin.execute_withdrawal_cap append_audit_entry
execute_withdrawal_cap-eq_ok env a s s' h =
    let logged =
      append_entry_lem AuditSource.treasury env a AdminActionType.execute_withdrawal_cap s.audit in
    let ((limit, t), e) = Option-some s.withdrawal_cap_proposal (λ z. ground (arith, h, z)) in
    (
      limit,
      t,
      e,
      ground (arith, h, e),
      ground (arith, h),
      ground (arith, h),
      ground (arith, h, e, logged),
      ground (arith, h, e, logged),
      (ground (arith, h, e, logged), ground (arith, h, e, logged)),
    )
