-- ===== src/Tests/Treasury.antt =====
-- Runs of contracts/treasury/src/lib.rs: the treasury at address 30 with the admin 1, the token 8
-- and a cap of 100 on the withdrawals of the epoch that began at 1000.
use stellar_invoice_finance.Prelude.{
  ◌≡◌, ◌≤◌, ◌+◌, ◌⊎◌, ◌+ℤ◌, ℕ, true, false, some, [], ◌∷◌, refl, arith, ℤ, pos, checked,
}
use stellar_invoice_finance.Shared.{Env, Address, ok}
use stellar_invoice_finance.Shared.Token.{Tokens}
use stellar_invoice_finance.Shared.Audit.{append_entry}
use stellar_invoice_finance.Treasury.State.{Treasury, fresh, append_audit_entry, get_collected}
use stellar_invoice_finance.Treasury.Admin
use stellar_invoice_finance.Treasury.Withdrawal
use stellar_invoice_finance.Treasury.Steps.{Step}
use stellar_invoice_finance.Treasury.Cap.{Step-cap, call_of}
use stellar_invoice_finance.Treasury.Emergency.{emergency_withdraw_drains}
use stellar_invoice_finance.Tests.Run.{after_call}

abbrev at_time : ℕ → Env
at_time now = record { now = now; self = 30; auth = λ a. true }

-- Each token balance is 500 whatever has been transferred.
abbrev tokens : Tokens
tokens = record { decimals = λ a. 7; balance = λ done t a. pos 500; accepts = λ done t. true }

abbrev capped : Treasury
capped = record fresh {
  admin = some 1;
  fee_bps = some 50;
  whitelisted_token = λ t. some true;
  withdrawal_cap = some (pos 100);
  epoch_start = some 1000;
  epoch_withdrawn = some (pos 20);
}

abbrev with_proposal : Treasury
with_proposal = record capped { withdrawal_cap_proposal = some (pos 700, 1000) }

abbrev once : Treasury
once = after_call capped (Withdrawal.withdraw (at_time 2000) tokens 1 8 5 (pos 50) capped)

abbrev recapped : Treasury
recapped = after_call with_proposal (Admin.execute_withdrawal_cap (at_time 90000) 1 with_proposal)

deployed_cap :
    (after_call fresh (Admin.initialize (at_time 3) 1 50 fresh)).withdrawal_cap ≡ some (pos 0)
unfolding Admin.initialize
deployed_cap = refl

collected_adds :
    get_collected
      (after_call capped
        (Admin.collect_fee 8 (pos 3) (after_call capped (Admin.collect_fee 8 (pos 4) capped))))
      8
    ≡ pos 7
unfolding Admin.collect_fee checked ◌+ℤ◌
collected_adds = refl

execute_withdrawal_cap_ok :
    Admin.execute_withdrawal_cap (at_time 90000) 1 with_proposal ≡ ok (tt, recapped)
unfolding Admin.execute_withdrawal_cap append_audit_entry append_entry
execute_withdrawal_cap_ok = refl

abbrev execute_step : Step with_proposal recapped
execute_step = Step.execute_withdrawal_cap (at_time 90000) 1 execute_withdrawal_cap_ok

Step-cap_example :
    (recapped.withdrawal_cap ≡ some (pos 100))
    ⊎ ((env : Env) × (admin : Address) × (limit : ℤ) × (proposed_at : ℕ) × (call_of execute_step
          ≡ some (env, admin))
        × (with_proposal.withdrawal_cap_proposal ≡ some (limit, proposed_at))
        × (proposed_at + 86400 ≤ env.now)
        × (with_proposal.admin ≡ some admin)
        × (env.auth admin ≡ true)
        × (recapped.withdrawal_cap ≡ some limit))
Step-cap_example = Step-cap with_proposal recapped execute_step

emergency_withdraw_drains_example :
    (s' : Treasury) × (Withdrawal.emergency_withdraw (at_time 2000) tokens 1 8 5 capped
      ≡ ok (tt, s'))
    × (s'.transfers ≡ record { token = 8; from = 30; to = 5; amount = pos 500 } ∷ [])
    × (s'.withdrawal_cap ≡ some (pos 100))
    × (s'.epoch_withdrawn ≡ some (pos 20))
    × (s'.lock ≡ false)
emergency_withdraw_drains_example =
    emergency_withdraw_drains (at_time 2000) tokens 1 8 5 500 capped refl refl refl refl refl
      (omega arith) refl refl
