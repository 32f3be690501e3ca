-- ===== src/FinancingPool/Repaid.antt =====
-- The whole of `repay` of contracts/financing_pool/src/lib.rs, for a pool in good order.
use stellar_invoice_finance.Prelude.{
  ℕ, ◌+◌, ◌≤◌, ◌≡◌, arith, true, false, some, ℤ, pos, ltb, leb_ℤ, ap, sym, ◌∙◌, ◌&&◌, ◌||◌, inl,
  inl, inr, Option-cases, ◌⊎◌, ◌+ℤ◌, +ℤ_pos, ◌≤ℤ◌,
}
use stellar_invoice_finance.Shared.{
  Env, Address, Pool, Symbol, Invoice, InvoiceStatus, ok, Outcome-cases, enter,
}
use stellar_invoice_finance.Shared.Token.{Tokens}
use stellar_invoice_finance.AccessControl.State.{AccessControl}
use stellar_invoice_finance.InvoiceNft.State.{current}
use stellar_invoice_finance.PriceOracle.{PriceOracle, convert}
use stellar_invoice_finance.FinancingPool.State.{
  FinancingPool, World, set_pool, transfer, convert_if_needed,
}
use stellar_invoice_finance.FinancingPool.Repayment.{repay, receive_payment, credit}
use stellar_invoice_finance.FinancingPool.Owed.{
  IsPool, penalty_of, convert_if_needed-eq_ok, positive-eq_pos,
}
use stellar_invoice_finance.FinancingPool.Paid.{repay-eq_ok, receive_payment-eq_ok, lock_in}
use stellar_invoice_finance.FinancingPool.Closing.{
  SamePools, Settled, settle-Settled, credited, credited-eq, credited-IsPool,
}

pub transfer-SamePools :
    (tokens : Tokens) (token from to : Address) (amount : ℤ) (s u : FinancingPool)
    → transfer tokens token from to amount s ≡ ok (tt, u)
    → SamePools s u
transfer-SamePools tokens token from to amount s u h =
    (ground arith, ground arith, ground arith, ground arith)

-- The pool that a payment of `b` leaves.
abbrev pub pool_after : Env → ℕ → ℕ → (n : ℕ) (p : Pool) → IsPool n p → Pool
pool_after env due b n p o =
    credited env due o.face (o.face + penalty_of o.face p.late_penalty_bps p.penalty_applied)
      o.repaid b p

pool_after_lem :
    (env : Env) (due b n : ℕ) (p : Pool) (o : IsPool n p)
    → p.is_closed ≡ false
    → ((pool_after env due b n p o).repaid_amount ≡ p.repaid_amount +ℤ pos b)
      × ((pool_after env due b n p o).penalty_applied
          ≡ (p.penalty_applied || (ltb 0 p.late_penalty_bps && ltb due env.now)))
      × ((pool_after env due b n p o).is_closed
          ≡ leb_ℤ
              (pool_after env due b n p o).total_owed
              (pool_after env due b n p o).repaid_amount)
unfolding credited
pool_after_lem env due b n p o e = (
  sym (+ℤ_pos o.repaid b) ∙ ap (λ x. x +ℤ pos b) (sym o.repaid_is),
  ground arith,
  ground (arith, e),
)

-- What becomes of the invoice with the pool.
abbrev OutcomeOf : ℕ → Pool → World → World → Type 0
OutcomeOf id q w w' =
    ((leb_ℤ q.total_owed q.repaid_amount ≡ true)
      × ((j : Invoice) × (w'.nft.invoice id ≡ some (current j))
          × (j.status ≡ InvoiceStatus.repaid)))
    ⊎ ((leb_ℤ q.total_owed q.repaid_amount ≡ false) × (w'.nft ≡ w.nft))

Settled-OutcomeOf :
    (id : ℕ) (q : Pool) (t v w' : World) (f : FinancingPool)
    → Settled id q t v
    → w' ≡ record v { financing = f }
    → OutcomeOf id q t w'
Settled-OutcomeOf id q t v w' f (inl (e, same, (j, at_id, status))) h =
    inl (e, (j, ap (λ x. x.nft.invoice id) h ∙ at_id, status))
Settled-OutcomeOf id q t v w' f (inr (e, k)) h = inr (e, ap (λ x. x.nft) h ∙ ap (λ x. x.nft) k)

Settled-pool :
    (id : ℕ) (q : Pool) (t v : World) → Settled id q t v → v.financing.pool ≡ t.financing.pool
Settled-pool id q t v (inl (e, same, j)) = same.0
Settled-pool id q t v (inr (e, k)) = ap (λ x. x.financing.pool) k

OutcomeOf-closed :
    (id : ℕ) (q : Pool) (w w' : World)
    → q.is_closed ≡ leb_ℤ q.total_owed q.repaid_amount
    → OutcomeOf id q w w'
    → ((q.is_closed ≡ true)
        × ((j : Invoice) × (w'.nft.invoice id ≡ some (current j))
            × (j.status ≡ InvoiceStatus.repaid)))
      ⊎ ((q.is_closed ≡ false) × (w'.nft ≡ w.nft))
OutcomeOf-closed id q w w' h (inl (e, j)) = inl (h ∙ e, j)
OutcomeOf-closed id q w w' h (inr (e, k)) = inr (h ∙ e, k)

OutcomeOf-eq :
    (id : ℕ) (q r : Pool) (w w' : World) → q ≡ r → OutcomeOf id q w w' → OutcomeOf id r w w'
OutcomeOf-eq id q r w w' e h = rw (← e) h

receive_payment-pool :
    (env : Env) (ac : AccessControl) (oracle : PriceOracle) (usdc : Symbol) (tokens : Tokens)
    (payer : Address) (id : ℕ) (token : Address) (amount : ℤ) (p : Pool) (i : Invoice)
    (w w' : World) (o : IsPool id p)
    → receive_payment env ac oracle usdc tokens payer id token amount p i w ≡ ok (tt, w')
    → pos 1 ≤ℤ amount
    → (b : ℕ) × (1 ≤ b)
      × (convert_if_needed env oracle usdc amount i.currency w.financing ≡ ok (pos b, w.financing))
      × (w'.financing.pool id ≡ some (pool_after env i.due_date b id p o))
      × OutcomeOf id (pool_after env i.due_date b id p o) w w'
unfolding credited
receive_payment-pool env ac oracle usdc tokens payer id token amount p i w w' o h least =
    let (owed, q, effective, s, u, v, e1, e2, e3, e4, e5, e6) =
      receive_payment-eq_ok env ac oracle usdc tokens payer id token amount p i w w' h in
    let (a, k, ea) = positive-eq_pos amount least in
    let (b, kb, eb, es) =
      convert_if_needed-eq_ok env oracle usdc a i.currency effective w.financing s k
        (ap (λ x. convert_if_needed env oracle usdc x i.currency w.financing) (sym ea) ∙ e1) in
    let eq =
      credited-eq env i.due_date p owed q id b o e2 (ap (λ x. credit x owed) (sym eb) ∙ e3) in
    let at_repaid = ap (λ q. q.repaid_amount) eq in
    let t : World = record w { financing = u } in
    let done = settle-Settled env ac tokens id token q (o.repaid + b) t v e5 at_repaid in
    let paid = transfer-SamePools tokens token payer env.self amount (set_pool id q s) u e4 in
    let now : w'.financing.pool id ≡ some q =
      ap (λ x. x.financing.pool id) e6
      ∙ ap (λ f. f id) (Settled-pool id q t v done)
      ∙ ap (λ f. f id) paid.0
      ∙ ground arith in
    (
      b,
      kb,
      e1 ∙ ap (λ x. ok (x, s)) eb ∙ ap (λ s. ok (pos b, s)) es,
      now ∙ ap some eq,
      OutcomeOf-eq id q (pool_after env i.due_date b id p o) t w' eq
          (Settled-OutcomeOf id q t v w' _ done e6),
    )

convert-lock :
    (env : Env) (oracle : PriceOracle) (usdc : Symbol) (amount : ℤ) (currency : Symbol) (r : ℤ)
    (id : ℕ) (w : World)
    → convert_if_needed env oracle usdc amount currency (lock_in id w).financing
      ≡ ok (r, (lock_in id w).financing)
    → convert_if_needed env oracle usdc amount currency w.financing ≡ ok (r, w.financing)
unfolding convert_if_needed
convert-lock env oracle usdc amount currency r id w h =
    elim (Option-cases w.financing.price_oracle) [
      | inl e ↦ ground (arith, h, e)
      | inr (addr, e) ↦
          elim (Outcome-cases (convert (enter env addr) amount currency usdc oracle)) [
            | inl ((x, o), f) ↦ ground (arith, h, e, f)
            | inr (inl (x, f)) ↦ absurd (ground (arith, h, e, f))
            | inr (inr f) ↦ absurd (ground (arith, h, e, f))
          ]
    ]

-- A repayment of an open pool in good order that succeeds credits the amount, converted by the price
-- oracle where the pool has one, which is positive, and leaves a pool in good order: the penalty has
-- been applied if it had been before or the invoice is overdue and the pool has a penalty, and the
-- pool is closed exactly when what has been repaid reaches what is owed, the penalty included. Then
-- the invoice is `Repaid`; otherwise no invoice has changed.
pub repay_settles :
    (env : Env) (ac : AccessControl) (oracle : PriceOracle) (usdc : Symbol) (tokens : Tokens)
    (payer : Address) (id : ℕ) (token : Address) (amount : ℤ) (p : Pool) (w w' : World)
    → repay env ac oracle usdc tokens payer id token amount w ≡ ok (tt, w')
    → w.financing.pool id ≡ some p
    → IsPool id p
    → (i : Invoice) × (q : Pool) × (b : ℕ) × (w.nft.invoice id ≡ some (current i))
      × (w'.financing.pool id ≡ some q)
      × IsPool id q
      × (1 ≤ b)
      × (convert_if_needed env oracle usdc amount i.currency w.financing ≡ ok (pos b, w.financing))
      × (q.repaid_amount ≡ p.repaid_amount +ℤ pos b)
      × (q.penalty_applied
          ≡ (p.penalty_applied || (ltb 0 p.late_penalty_bps && ltb i.due_date env.now)))
      × (q.is_closed ≡ leb_ℤ q.total_owed q.repaid_amount)
      × (((q.is_closed ≡ true)
            × ((j : Invoice) × (w'.nft.invoice id ≡ some (current j))
                × (j.status ≡ InvoiceStatus.repaid)))
          ⊎ ((q.is_closed ≡ false) × (w'.nft ≡ w.nft)))
repay_settles env ac oracle usdc tokens payer id token amount p w w' h there o =
    let (p', i, least, by, there', is_open, e, frozen, free, rest) =
      repay-eq_ok env ac oracle usdc tokens payer id token amount w w' h in
    let same : p' ≡ p = ground (arith, there, there') in
    let opened : p.is_closed ≡ false = ap (λ p. p.is_closed) (sym same) ∙ is_open in
    let (b, k, converted, now, outcome) =
      receive_payment-pool env ac oracle usdc tokens payer id token amount p i (lock_in id w) w' o
        (ap
            (λ p.
              receive_payment env ac oracle usdc tokens payer id token amount p i (lock_in id w))
            (sym same)
          ∙ rest)
        least in
    let q = pool_after env i.due_date b id p o in
    let (sum, penalty, closed) = pool_after_lem env i.due_date b id p o opened in
    (
      i,
      q,
      b,
      e,
      now,
      credited-IsPool env i.due_date p id b o opened,
      k,
      convert-lock env oracle usdc amount i.currency (pos b) id w converted,
      sum,
      penalty,
      closed,
      OutcomeOf-closed id q (lock_in id w) w' closed outcome,
    )
