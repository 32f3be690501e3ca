-- ===== src/Treasury/Cap.antt =====
-- Over sequences of calls of contracts/treasury/src/lib.rs: what is withdrawn in an epoch, and how
-- the cap changes.
use stellar_invoice_finance.Prelude.{
  ℕ, ◌+◌, ◌≤◌, ◌<◌, ◌≡◌, refl, true, Option, none, some, ℤ, pos, pos_part, ◌⊎◌, inl, inr,
}
use stellar_invoice_finance.Shared.{Env, Address}
use stellar_invoice_finance.Treasury.State.{Treasury}
use stellar_invoice_finance.Treasury.Withdrawal
use stellar_invoice_finance.Treasury.Steps.{Step}
use stellar_invoice_finance.Treasury.Frames
use stellar_invoice_finance.Treasury.Frames.{SameEpoch}
use stellar_invoice_finance.Treasury.Epoch.{withdraw-keeps_cap}

-- What a step withdraws by `withdraw`; what `emergency_withdraw` takes is not counted.
abbrev pub by_withdraw : {s s' : Treasury} → Step s s' → ℕ
by_withdraw (Step.withdraw env tokens a token recipient amount h) = pos_part amount
by_withdraw st = 0

-- A withdrawal before the end of the epoch that began at `start`, and no change of the cap.
abbrev pub IsWithin : ℕ → {s s' : Treasury} → Step s s' → Type 0
IsWithin start (Step.withdraw env tokens a token recipient amount h) = env.now < start + 86400
IsWithin start (Step.execute_withdrawal_cap env a h) = ⊥
IsWithin start st = Unit {0}

-- Steps in a row, with what they withdraw by `withdraw` in all.
pub data Window (start : ℕ) (s : Treasury) : ℕ → Treasury → Type 0 where
  here : Window start s 0 s
  next :
      (n : ℕ) (t u : Treasury)
      → Window start s n t
      → (st : Step t u) → IsWithin start st
      → Window start s (n + by_withdraw st) u

abbrev pub HasEpoch : ℕ → ℕ → ℕ → Treasury → Type 0
HasEpoch limit start taken s =
    (s.withdrawal_cap ≡ some (pos limit))
    × (s.epoch_start ≡ some start)
    × (s.epoch_withdrawn ≡ some (pos taken))

-- The environment and the caller of a step; `collect_fee` has no signer.
abbrev pub call_of : {s s' : Treasury} → Step s s' → Option (Env × Address)
call_of (Step.set_fee_bps env a bps h) = some (env, a)
call_of (Step.whitelist_token env a token h) = some (env, a)
call_of (Step.collect_fee token amount h) = none
call_of (Step.propose_withdrawal_cap env a cap h) = some (env, a)
call_of (Step.execute_withdrawal_cap env a h) = some (env, a)
call_of (Step.propose_upgrade env a x h) = some (env, a)
call_of (Step.execute_upgrade env a h) = some (env, a)
call_of (Step.withdraw env tokens a token recipient amount h) = some (env, a)
call_of (Step.emergency_withdraw env tokens a token recipient h) = some (env, a)

-- A step of the treasury leaves the cap as it is, or it puts in its place a cap that was proposed at
-- least 24 hours before the time of the step, and its caller is the admin, who signed it.
pub Step-cap :
    (s s' : Treasury) (st : Step s s')
    → (s'.withdrawal_cap ≡ s.withdrawal_cap)
      ⊎ ((env : Env) × (admin : Address) × (limit : ℤ) × (proposed_at : ℕ) × (call_of st
            ≡ some (env, admin))
          × (s.withdrawal_cap_proposal ≡ some (limit, proposed_at))
          × (proposed_at + 86400 ≤ env.now)
          × (s.admin ≡ some admin)
          × (env.auth admin ≡ true)
          × (s'.withdrawal_cap ≡ some limit))
Step-cap s s' (Step.withdraw env tokens a token recipient amount h) =
    inl (withdraw-keeps_cap env tokens a token recipient amount s s' h)
Step-cap s s' (Step.execute_withdrawal_cap env a h) =
    let (limit, t, e, k, auth, is_admin, l, cleared, same) =
      Frames.execute_withdrawal_cap-eq_ok env a s s' h in
    inr (env, a, limit, t, refl, e, k, is_admin, auth, l)
Step-cap s s' (Step.set_fee_bps env a bps h) =
    inl ((Frames.set_fee_bps-SameLimits env a bps s s' h).0)
Step-cap s s' (Step.whitelist_token env a t h) =
    inl ((Frames.whitelist_token-SameLimits env a t s s' h).0)
Step-cap s s' (Step.collect_fee t x h) = inl ((Frames.collect_fee-SameLimits t x s s' h).0)
Step-cap s s' (Step.propose_withdrawal_cap env a x h) =
    inl ((Frames.propose_withdrawal_cap-SameLimits env a x s s' h).0)
Step-cap s s' (Step.propose_upgrade env a x h) =
    inl ((Frames.propose_upgrade-SameLimits env a x s s' h).0)
Step-cap s s' (Step.execute_upgrade env a h) =
    inl ((Frames.execute_upgrade-SameLimits env a s s' h).0)
Step-cap s s' (Step.emergency_withdraw env tokens a t r h) =
    inl ((Frames.emergency_withdraw-SameLimits env tokens a t r s s' h).0)
