-- ===== src/Shared/Reentrancy.antt =====
-- contracts/shared/src/reentrancy.rs: the lock in instance storage, taken for the length of a call.
use stellar_invoice_finance.Prelude.{Bool, true, false, ◌≡◌, arith}
use stellar_invoice_finance.Shared.Errors.{reentrancy}
use stellar_invoice_finance.Shared.Host.{Action, ok, err, ◌>>=◌, ◌>>◌, modify, pure, Outcome-ok}

module _ {S : Type 0} (is_locked : S → Bool) (set_lock : Bool → S → S) where
  abbrev pub acquire_guard : Action S (Unit {0})
  acquire_guard s = elim (is_locked s) [ true ↦ err reentrancy | false ↦ ok (tt, set_lock true s) ]

  abbrev pub release_guard : Action S (Unit {0})
  release_guard = modify (set_lock false)

  -- `let _guard = ReentrancyGuard::new(&env)?; body`, which drops the guard at the end.
  abbrev pub with_guard : {A : Type 0} → Action S A → Action S A
  with_guard body = do acquire_guard; a ← body; release_guard; pure a

  pub with_guard-eq_ok :
      {A : Type 0} (body : Action S A) (a : A) (s s' : S)
      → with_guard body s ≡ ok (a, s')
      → (u : S) × (is_locked s ≡ false)
        × (body (set_lock true s) ≡ ok (a, u))
        × (s' ≡ set_lock false u)
  with_guard-eq_ok body a s s' h =
      let ((b, u), e) =
        Outcome-ok (body (set_lock true s)) (λ x z. ground (arith, h, z))
          (λ z. ground (arith, h, z)) in
      (u, ground (arith, h), ground (arith, h, e), ground (arith, h, e))
