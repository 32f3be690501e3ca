-- ===== src/Treasury/Emergency.antt =====
-- contracts/treasury/src/lib.rs: the withdrawal of a whole balance.
use stellar_invoice_finance.Prelude.{
  ℕ, ◌≤◌, ◌≡◌, refl, arith, true, false, some, pos, [], ◌∷◌, ◌++◌,
}
use stellar_invoice_finance.Shared.{Env, Address, ok}
use stellar_invoice_finance.Shared.Token.{Tokens}
use stellar_invoice_finance.Shared.Audit.{AuditSource, AdminActionType}
use stellar_invoice_finance.Shared.Audit.Ring.{append_entry_lem, appended, has_room}
use stellar_invoice_finance.Treasury.State.{Treasury, append_audit_entry}
use stellar_invoice_finance.Treasury.Withdrawal

-- The admin withdraws the whole balance of a whitelisted token, whatever the cap is: the call
-- succeeds where the lock is free, the token has a positive balance and accepts the transfer, and
-- the audit log has room; it asks for one transfer of that balance to the recipient, and neither
-- the cap nor the running total of the epoch changes.
pub emergency_withdraw_drains :
    (env : Env) (tokens : Tokens) (admin token recipient : Address) (b : ℕ) (s : Treasury)
    → env.auth admin ≡ true
    → s.admin ≡ some admin
    → s.whitelisted_token token ≡ some true
    → s.lock ≡ false
    → tokens.balance s.transfers token env.self ≡ pos b
    → 1 ≤ b
    → tokens.accepts s.transfers
        (record { token = token; from = env.self; to = recipient; amount = pos b })
      ≡ true
    → has_room s.audit ≡ true
    → (s' : Treasury) × (Withdrawal.emergency_withdraw env tokens admin token recipient s
        ≡ ok (tt, s'))
      × (s'.transfers
          ≡ s.transfers
            ++ record { token = token; from = env.self; to = recipient; amount = pos b } ∷ [])
      × (s'.withdrawal_cap ≡ s.withdrawal_cap)
      × (s'.epoch_withdrawn ≡ s.epoch_withdrawn)
      × (s'.lock ≡ false)
unfolding Withdrawal.emergency_withdraw append_audit_entry Withdrawal.drain
emergency_withdraw_drains env tokens admin token recipient b s auth is_admin listed free e h accepts
      room =
    let logged =
      append_entry_lem AuditSource.treasury env admin AdminActionType.emergency_withdraw s.audit in
    (
      record s {
        transfers =
            s.transfers
            ++ record { token = token; from = env.self; to = recipient; amount = pos b } ∷ [];
        audit = appended AuditSource.treasury env admin AdminActionType.emergency_withdraw s.audit;
        lock = false;
      },
      ground (arith, auth, is_admin, listed, free, e, h, accepts, room, logged),
      refl,
      refl,
      refl,
      refl,
    )
