-- ===== src/FinancingPool/Paid.antt =====
-- What `repay` of contracts/financing_pool/src/lib.rs does to the pool of an invoice.
use stellar_invoice_finance.Prelude.{ℕ, ◌≡◌, arith, true, false, some, ℤ, pos, Option-some, ◌≤ℤ◌}
use stellar_invoice_finance.Shared.{Env, Address, Pool, Symbol, Invoice, ok, Outcome-ok}
use stellar_invoice_finance.Shared.Token.{Tokens}
use stellar_invoice_finance.AccessControl.State.{AccessControl}
use stellar_invoice_finance.InvoiceNft.State.{current, is_invoice_frozen}
use stellar_invoice_finance.InvoiceNft.Effects.{Slot, slot}
use stellar_invoice_finance.PriceOracle.{PriceOracle}
use stellar_invoice_finance.FinancingPool.State.{
  FinancingPool, World, convert_if_needed, set_pool, set_repayment_lock, transfer,
}
use stellar_invoice_finance.FinancingPool.Repayment.{
  with_penalty, credit, settle, repay, receive_payment,
}

abbrev pub locked : ℕ → FinancingPool → FinancingPool
locked id s = set_repayment_lock id true s

abbrev pub lock_in : ℕ → World → World
lock_in id w = record w { financing = set_repayment_lock id true w.financing }

-- The part after the guards; `s` is the pool's storage when the token is transferred, and `u` after.
pub receive_payment-eq_ok :
    (env : Env) (ac : AccessControl) (oracle : PriceOracle) (usdc : Symbol) (tokens : Tokens)
    (payer : Address) (id : ℕ) (token : Address) (amount : ℤ) (p : Pool) (i : Invoice)
    (w w' : World)
    → receive_payment env ac oracle usdc tokens payer id token amount p i w ≡ ok (tt, w')
    → (owed q : Pool) × (effective : ℤ) × (s u : FinancingPool) × (v : World) × (convert_if_needed
          env oracle usdc amount i.currency w.financing
        ≡ ok (effective, s))
      × (with_penalty env i.due_date p ≡ ok owed)
      × (credit effective owed ≡ ok q)
      × (transfer tokens token payer env.self amount (set_pool id q s) ≡ ok (tt, u))
      × (settle env ac tokens id token q (record w { financing = u }) ≡ ok (tt, v))
      × (w' ≡ record v { financing = set_repayment_lock id false v.financing })
unfolding receive_payment
receive_payment-eq_ok env ac oracle usdc tokens payer id token amount p i w w' h =
    let ((effective, s), e1) =
      Outcome-ok (convert_if_needed env oracle usdc amount i.currency w.financing)
        (λ x e. ground (arith, h, e)) (λ e. ground (arith, h, e)) in
    let (owed, e2) =
      Outcome-ok (with_penalty env i.due_date p) (λ x e. ground (arith, h, e1, e))
        (λ e. ground (arith, h, e1, e)) in
    let (q, e3) =
      Outcome-ok (credit effective owed) (λ x e. ground (arith, h, e1, e2, e))
        (λ e. ground (arith, h, e1, e2, e)) in
    let ((u0, u), e4) =
      Outcome-ok (transfer tokens token payer env.self amount (set_pool id q s))
        (λ x e. ground (arith, h, e1, e2, e3, e)) (λ e. ground (arith, h, e1, e2, e3, e)) in
    let ((v0, v), e5) =
      Outcome-ok (settle env ac tokens id token q (record w { financing = u }))
        (λ x e. ground (arith, h, e1, e2, e3, e4, e)) (λ e. ground (arith, h, e1, e2, e3, e4, e)) in
    (owed, q, effective, s, u, v, e1, e2, e3, e4, e5, ground (arith, h, e1, e2, e3, e4, e5))

-- The guards of a repayment that succeeds.
pub repay-eq_ok :
    (env : Env) (ac : AccessControl) (oracle : PriceOracle) (usdc : Symbol) (tokens : Tokens)
    (payer : Address) (id : ℕ) (token : Address) (amount : ℤ) (w w' : World)
    → repay env ac oracle usdc tokens payer id token amount w ≡ ok (tt, w')
    → (p : Pool) × (i : Invoice) × (pos 1 ≤ℤ amount)
      × (env.auth payer ≡ true)
      × (w.financing.pool id ≡ some p)
      × (p.is_closed ≡ false)
      × (w.nft.invoice id ≡ some (current i))
      × (is_invoice_frozen w.nft id ≡ false)
      × (w.financing.repayment_lock id ≡ false)
      × (receive_payment env ac oracle usdc tokens payer id token amount p i (lock_in id w)
          ≡ ok (tt, w'))
unfolding repay
repay-eq_ok env ac oracle usdc tokens payer id token amount w w' h =
    let (addr, e1) = Option-some w.financing.invoice_nft (λ e. ground (arith, h, e)) in
    let (p, e2) = Option-some (w.financing.pool id) (λ e. ground (arith, h, e1, e)) in
    elim (slot (w.nft.invoice id)) [
      | Slot.empty e ↦ absurd (ground (arith, h, e1, e2, e))
      | Slot.stale i e ↦ absurd (ground (arith, h, e1, e2, e))
      | Slot.holds i e ↦ (
        p,
        i,
        ground (arith, h),
        ground (arith, h),
        e2,
        ground (arith, h, e1, e2),
        e,
        ground (arith, h, e1),
        ground (arith, h, e1),
        ground (arith, h, e1, e2, e),
      )
    ]
