-- ===== src/Treasury/Withdrawal.antt =====
-- contracts/treasury/src/lib.rs: withdrawals, and the cap on those of 24 hours.
use stellar_invoice_finance.Prelude.{
  ◌-◌, true, false, none, some, ℤ, pos, leb, update, get_or, ltb_ℤ, leb_ℤ, eq_ℤ, checked_add,
  saturating_add, saturating_sub,
}
use stellar_invoice_finance.Shared.{
  Env, Address, Action, ok, ◌>>=◌, ◌>>◌, gets, ok_or, lift, reject_if, modify, require_auth,
  invalid_amount, arithmetic_overflow, insufficient_pool_balance, withdrawal_rate_limit_exceeded,
}
use stellar_invoice_finance.Shared.Validation.{require_within_max_amount}
use stellar_invoice_finance.Shared.Audit.{AdminActionType}
use stellar_invoice_finance.Shared.Token.{Tokens}
use stellar_invoice_finance.Treasury.State.{
  Treasury, epoch_duration, with_guard, require_admin, require_whitelisted_token,
  append_audit_entry, transfer, get_balance, get_withdrawal_cap,
}

-- What has been withdrawn in the current epoch, after a new one is opened where 24 hours have passed.
unfoldable pub advance_epoch : Env → Action Treasury ℤ
advance_epoch env s = elim (leb epoch_duration (env.now - get_or s.epoch_start env.now)) [
  | true ↦ ok (pos 0, record s { epoch_start = some env.now; epoch_withdrawn = some (pos 0) })
  | false ↦ ok (get_or s.epoch_withdrawn (pos 0), s)
]

-- A cap of 0 is no cap.
unfoldable pub enforce_rate_limit : Env → ℤ → Action Treasury (Unit {0})
enforce_rate_limit env amount s = elim (eq_ℤ (get_withdrawal_cap s) (pos 0)) [
  | true ↦ ok (tt, s)
  | false ↦
      (do
        epoch_withdrawn ← advance_epoch env
        new_total ← ok_or (checked_add epoch_withdrawn amount) arithmetic_overflow
        reject_if (ltb_ℤ (get_withdrawal_cap s) new_total) withdrawal_rate_limit_exceeded)
        s
]

unfoldable pub record_withdrawal : ℤ → Action Treasury (Unit {0})
record_withdrawal amount s = elim (eq_ℤ (get_withdrawal_cap s) (pos 0)) [
  | true ↦ ok (tt, s)
  | false ↦ ok (
    tt,
    record s { epoch_withdrawn = some (saturating_add (get_or s.epoch_withdrawn (pos 0)) amount) },
  )
]

-- The informational total of the token, where there is one.
abbrev pub reduce_collected : Address → ℤ → Treasury → Treasury
reduce_collected token amount s = record s {
  collected = elim (s.collected token) [
    | none ↦ s.collected
    | some collected ↦ update s.collected token (some (saturating_sub collected amount))
  ];
}

-- The part of `withdraw` under the reentrancy guard.
unfoldable pub pay_out : Env → Tokens → Address → Address → Address → ℤ → Action Treasury (Unit {0})
pay_out env tokens admin token recipient amount = do
  balance ← gets (λ s. get_balance env tokens s token)
  reject_if (ltb_ℤ balance amount) insufficient_pool_balance
  modify (reduce_collected token amount)
  record_withdrawal amount
  transfer tokens token env.self recipient amount
  append_audit_entry env admin AdminActionType.withdraw

-- The end of `withdraw`, from the check of the cap on.
unfoldable pub withdraw_within_cap :
    Env → Tokens → Address → Address → Address → ℤ → Action Treasury (Unit {0})
withdraw_within_cap env tokens admin token recipient amount = do
  enforce_rate_limit env amount
  with_guard (pay_out env tokens admin token recipient amount)

unfoldable pub withdraw :
    Env → Tokens → Address → Address → Address → ℤ → Action Treasury (Unit {0})
withdraw env tokens admin token recipient amount = do
  require_auth env admin
  require_admin admin
  reject_if (leb_ℤ amount (pos 0)) invalid_amount
  lift (require_within_max_amount amount)
  require_whitelisted_token token
  withdraw_within_cap env tokens admin token recipient amount

unfoldable pub drain : Env → Tokens → Address → Address → Action Treasury (Unit {0})
drain env tokens token recipient s =
    let balance = get_balance env tokens s token in
    elim (ltb_ℤ (pos 0) balance) [
      | true ↦ transfer tokens token env.self recipient balance s
      | false ↦ ok (tt, s)
    ]

unfoldable pub emergency_withdraw :
    Env → Tokens → Address → Address → Address → Action Treasury (Unit {0})
emergency_withdraw env tokens admin token recipient = do
  require_auth env admin
  require_admin admin
  require_whitelisted_token token
  with_guard (do
    drain env tokens token recipient
    append_audit_entry env admin AdminActionType.emergency_withdraw)
