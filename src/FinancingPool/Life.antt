-- ===== src/FinancingPool/Life.antt =====
-- The life of a pool of contracts/financing_pool/src/lib.rs over sequences of calls.
use stellar_invoice_finance.Prelude.{
  ℕ, ◌≤◌, ◌≡◌, arith, refl, false, none, some, pos, ◌≤ℤ◌, update, ap, inl, inr, ◌⊎◌, Every,
  Every-some, leb_ℤ,
}
use native.Mathlib.Numerals.{unary_clauses}
use stellar_invoice_finance.Shared.{Address, Pool, Invoice, EarlySettlementOffer}
use stellar_invoice_finance.FinancingPool.State.{FinancingPool, World}
use stellar_invoice_finance.FinancingPool.Owed.{IsPool, positive-eq_pos}
use stellar_invoice_finance.FinancingPool.Released.{new_pool, release_funds-eq_ok}
use stellar_invoice_finance.FinancingPool.Ledger
use stellar_invoice_finance.FinancingPool.Ledger.{Ledger, ledger}
use stellar_invoice_finance.FinancingPool.Turns
use stellar_invoice_finance.FinancingPool.Turns.{put_pool}
use stellar_invoice_finance.FinancingPool.Accepted.{bought_out, accept_early_settlement-ledger}
use stellar_invoice_finance.FinancingPool.Steps.{Call, Step}

-- Every pool is in good order, and every offer of a buyout is of a positive amount.
pub record IsLedger (l : Ledger) : Type 0 where
  pub pools : (n : ℕ) (p : Pool) → l.pool n ≡ some p → IsPool n p
  pub offers : (n : ℕ) (o : EarlySettlementOffer) → l.offer n ≡ some o → pos 1 ≤ℤ o.amount
  pub rate : Every (λ (n : ℕ). n ≤ 10000) l.penalty

-- What one call may do to the pools and the offers.
pub data Turn (l l' : Ledger) : Type 0 where
  idles : l' ≡ l → Turn l l'
  sets_rate : (n : ℕ) → n ≤ 10000 → l' ≡ record l { penalty = some n } → Turn l l'
  opens : (id : ℕ) (p : Pool) → l.pool id ≡ none → IsPool id p → l' ≡ put_pool id p l → Turn l l'
  pays :
      (id : ℕ) (p q : Pool)
      → l.pool id ≡ some p
      → p.is_closed ≡ false
      → IsPool id q
      → l' ≡ put_pool id q l
      → Turn l l'
  offers :
      (id : ℕ) (o : EarlySettlementOffer)
      → pos 1 ≤ℤ o.amount
      → l' ≡ record l { offer = update l.offer id (some o) }
      → Turn l l'
  withdraws : (id : ℕ) → l' ≡ record l { offer = update l.offer id none } → Turn l l'
  buys_out :
      (id : ℕ) (p : Pool) (o : EarlySettlementOffer)
      → l.pool id ≡ some p
      → p.is_closed ≡ false
      → pos 1 ≤ℤ o.amount
      → l' ≡ bought_out id p o l
      → Turn l l'

new_pool-IsPool :
    (id : ℕ) (token : Address) (i : Invoice) (late : ℕ)
    → leb_ℤ i.amount (pos 0) ≡ false
    → late ≤ 10000
    → IsPool id (new_pool id token i late)
new_pool-IsPool id token i late h k =
    let (n, least, e) = positive-eq_pos i.amount (ground (arith, h)) in
    record {
      face = n;
      repaid = 0;
      id_is = refl;
      face_is = e;
      positive = least;
      penalty_bps = k;
      nothing_funded = refl;
      owed_is = simp unary_clauses e;
      repaid_is = refl;
      open_owes = λ x. omega (arith, least);
    }

Call-Turn : (s s' : FinancingPool) → Call s s' → Turn (ledger s) (ledger s')
Call-Turn s s' (Call.initialize env a n r t ac late po limit h) =
    let (small, e) = Ledger.initialize-ledger env a n r t ac late po limit s s' h in
    Turn.sets_rate late small e
Call-Turn s s' (Call.set_max_position_bps env a n h) =
    Turn.idles (Ledger.set_max_position_bps-ledger env a n s s' h)
Call-Turn s s' (Call.propose_upgrade env a x h) =
    Turn.idles (Ledger.propose_upgrade-ledger env a x s s' h)
Call-Turn s s' (Call.execute_upgrade env a h) =
    Turn.idles (Ledger.execute_upgrade-ledger env a s s' h)
Call-Turn s s' (Call.record_position env ac caller id investor c t h) =
    Turn.idles (Ledger.record_position-ledger env ac caller id investor c t s s' h)
Call-Turn s s' (Call.list_position_for_sale env ac seller id token price h) =
    Turn.idles (Ledger.list_position_for_sale-ledger env ac seller id token price s s' h)
Call-Turn s s' (Call.buy_position env ac tokens buyer id seller h) =
    Turn.idles (Ledger.buy_position-ledger env ac tokens buyer id seller s s' h)
Call-Turn s s' (Call.propose_early_settlement env ac nft tokens sme id amount h) =
    let (o, least, e) =
      Ledger.propose_early_settlement-ledger env ac nft tokens sme id amount s s' h in
    Turn.offers id o least e
Call-Turn s s' (Call.cancel_early_settlement env nft tokens sme id h) =
    Turn.withdraws id (Ledger.cancel_early_settlement-ledger env nft tokens sme id s s' h)

-- In good order, every call is one of these changes.
pub Step-Turn :
    (w w' : World)
    → IsLedger (ledger w.financing)
    → Step w w'
    → Turn (ledger w.financing) (ledger w'.financing)
Step-Turn w w' v (Step.call c) = Call-Turn w.financing w'.financing c
Step-Turn w w' v (Step.release_funds env ac m id token h) =
    let (i, late, at, free, found, sized, rate, e, funded) =
      release_funds-eq_ok env ac m id token w w' h in
    Turn.opens id (new_pool id token i late) free
      (new_pool-IsPool id token i late sized
        (Every-some (λ (n : ℕ). n ≤ 10000) w.financing.late_penalty_bps late v.rate rate))
      (ap ledger e)
Step-Turn w w' v (Step.repay env ac oracle usdc tokens payer id token amount h) =
    let (p, q, there, opened, good, e) =
      Turns.repay-ledger env ac oracle usdc tokens payer id token amount w w' h (v.pools id) in
    Turn.pays id p q there opened good e
Step-Turn w w' v (Step.mark_default env ac tokens a id token h) =
    Turn.idles (Turns.mark_default-ledger env ac tokens a id token w w' h (v.pools id))
Step-Turn w w' v (Step.accept_early_settlement env ac tokens investor id h) =
    let (p, o, there, opened, least, e) =
      accept_early_settlement-ledger env ac tokens investor id w w' h (v.offers id) in
    accepted p o there opened least e
  where
    accepted :
        (p : Pool) (o : EarlySettlementOffer)
        → w.financing.pool id ≡ some p
        → p.is_closed ≡ false
        → pos 1 ≤ℤ o.amount
        → (ledger w'.financing ≡ bought_out id p o (ledger w.financing))
          ⊎ (ledger w'.financing ≡ record (ledger w.financing) {
            offer = update w.financing.early_settlement id (some o);
          })
        → Turn (ledger w.financing) (ledger w'.financing)
    accepted p o there opened least (inl e) = Turn.buys_out id p o there opened least e
    accepted p o there opened least (inr e) = Turn.offers id o least e
Step-Turn w w' v (Step.others e) = Turn.idles (ap ledger e)
