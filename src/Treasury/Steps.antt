-- ===== src/Treasury/Steps.antt =====
-- The calls of contracts/treasury/src/lib.rs that succeed after deployment, as steps.
use stellar_invoice_finance.Prelude.{ℕ, ℤ, ◌≡◌}
use stellar_invoice_finance.Shared.{Env, Address, Hash, ok}
use stellar_invoice_finance.Shared.Token.{Tokens}
use stellar_invoice_finance.Treasury.State.{Treasury}
use stellar_invoice_finance.Treasury.Admin
use stellar_invoice_finance.Treasury.Withdrawal

pub data Step (s s' : Treasury) : Type 0 where
  set_fee_bps :
      (env : Env) (a : Address) (bps : ℕ) → Admin.set_fee_bps env a bps s ≡ ok (tt, s') → Step s s'
  whitelist_token :
      (env : Env) (a token : Address)
      → Admin.whitelist_token env a token s ≡ ok (tt, s')
      → Step s s'
  collect_fee :
      (token : Address) (amount : ℤ) → Admin.collect_fee token amount s ≡ ok (tt, s') → Step s s'
  propose_withdrawal_cap :
      (env : Env) (a : Address) (cap : ℤ)
      → Admin.propose_withdrawal_cap env a cap s ≡ ok (tt, s')
      → Step s s'
  execute_withdrawal_cap :
      (env : Env) (a : Address) → Admin.execute_withdrawal_cap env a s ≡ ok (tt, s') → Step s s'
  propose_upgrade :
      (env : Env) (a : Address) (h : Hash)
      → Admin.propose_upgrade env a h s ≡ ok (tt, s')
      → Step s s'
  execute_upgrade :
      (env : Env) (a : Address) → Admin.execute_upgrade env a s ≡ ok (tt, s') → Step s s'
  withdraw :
      (env : Env) (tokens : Tokens) (a token recipient : Address) (amount : ℤ)
      → Withdrawal.withdraw env tokens a token recipient amount s ≡ ok (tt, s')
      → Step s s'
  emergency_withdraw :
      (env : Env) (tokens : Tokens) (a token recipient : Address)
      → Withdrawal.emergency_withdraw env tokens a token recipient s ≡ ok (tt, s')
      → Step s s'
