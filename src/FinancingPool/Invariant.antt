-- ===== src/FinancingPool/Invariant.antt =====
-- What holds of the pools of contracts/financing_pool/src/lib.rs in every state that its calls lead
-- to.
use stellar_invoice_finance.Prelude.{
  ℕ, ◌≡◌, arith, true, false, Option, none, some, ℤ, pos, ◌≤ℤ◌, update, ap, ◌∙◌, ◌==◌, Bool-cases,
  inl, inr, if◌then◌else◌,
}
use stellar_invoice_finance.Shared.{Env, Address, Symbol, Pool, EarlySettlementOffer, ok}
use stellar_invoice_finance.Shared.Token.{Tokens}
use stellar_invoice_finance.AccessControl.State.{AccessControl}
use stellar_invoice_finance.PriceOracle.{PriceOracle}
use stellar_invoice_finance.FinancingPool.State.{World}
use stellar_invoice_finance.FinancingPool.Repayment
use stellar_invoice_finance.FinancingPool.Paid.{repay-eq_ok}
use stellar_invoice_finance.FinancingPool.Owed.{IsPool, positive-eq_pos}
use stellar_invoice_finance.FinancingPool.Ledger.{Ledger, ledger}
use stellar_invoice_finance.FinancingPool.Turns.{put_pool}
use stellar_invoice_finance.FinancingPool.Life.{IsLedger, Turn, Step-Turn}
use stellar_invoice_finance.FinancingPool.Steps.{Steps, Reach}

put_pool-IsPool :
    (id : ℕ) (q : Pool) (l : Ledger)
    → ((n : ℕ) (p : Pool) → l.pool n ≡ some p → IsPool n p)
    → IsPool id q
    → (n : ℕ) (p : Pool) → (put_pool id q l).pool n ≡ some p
    → IsPool n p
put_pool-IsPool id q l v good n p h = elim (Bool-cases (n == id)) [
  | inl e ↦
      let n_is : id ≡ n = ground (arith, e) in
      let p_is : q ≡ p = ground (arith, e, h) in rw (← n_is, ← p_is) good
  | inr e ↦ v n p (ground (arith, e, h))
]

update-offers :
    (id : ℕ) (o : Option EarlySettlementOffer) (l : Ledger)
    → ((n : ℕ) (o : EarlySettlementOffer) → l.offer n ≡ some o → pos 1 ≤ℤ o.amount)
    → ((x : EarlySettlementOffer) → o ≡ some x → pos 1 ≤ℤ x.amount)
    → (n : ℕ) (x : EarlySettlementOffer) → update l.offer id o n ≡ some x
    → pos 1 ≤ℤ x.amount
update-offers id o l v good n x h = elim (Bool-cases (n == id)) [
  | inl e ↦ good x (ground (arith, e, h))
  | inr e ↦ v n x (ground (arith, e, h))
]

bought_out-IsPool :
    (id : ℕ) (p : Pool) (o : EarlySettlementOffer)
    → IsPool id p
    → pos 1 ≤ℤ o.amount
    → IsPool id (record p { repaid_amount = o.amount; is_closed = true })
bought_out-IsPool id p o v h =
    let (n, least, e) = positive-eq_pos o.amount h in
    record {
      face = v.face;
      repaid = n;
      id_is = v.id_is;
      face_is = v.face_is;
      positive = v.positive;
      penalty_bps = v.penalty_bps;
      nothing_funded = v.nothing_funded;
      owed_is = v.owed_is;
      repaid_is = e;
      open_owes = λ x. absurd (ground (arith, x));
    }

Turn-IsLedger : (l l' : Ledger) → IsLedger l → Turn l l' → IsLedger l'
Turn-IsLedger l l' v (Turn.idles e) = rw e v
Turn-IsLedger l l' v (Turn.sets_rate n small e) =
    rw e (record { pools = v.pools; offers = v.offers; rate = small })
Turn-IsLedger l l' v (Turn.opens id p free good e) =
    rw e (record { pools = put_pool-IsPool id p l v.pools good; offers = v.offers; rate = v.rate })
Turn-IsLedger l l' v (Turn.pays id p q there opened good e) =
    rw e (record { pools = put_pool-IsPool id q l v.pools good; offers = v.offers; rate = v.rate })
Turn-IsLedger l l' v (Turn.offers id o least e) = rw e (record {
  pools = v.pools;
  offers = update-offers id (some o) l v.offers (λ x f. rw (← same_offer o x f) least);
  rate = v.rate;
})
  where
    same_offer : (o x : EarlySettlementOffer) → some o ≡ some x → o ≡ x
    same_offer o x f = ground (arith, f)
Turn-IsLedger l l' v (Turn.withdraws id e) = rw e (record {
  pools = v.pools;
  offers = update-offers id none l v.offers (λ x f. absurd (ground (arith, f)));
  rate = v.rate;
})
Turn-IsLedger l l' v (Turn.buys_out id p o there opened least e) = rw e (record {
  pools =
      put_pool-IsPool id (record p { repaid_amount = o.amount; is_closed = true }) l v.pools
        (bought_out-IsPool id p o (v.pools id p there) least);
  offers = update-offers id none l v.offers (λ x f. absurd (ground (arith, f)));
  rate = v.rate;
})

-- In every state that the calls of the pool contract lead to from an empty storage, each pool is
-- stored under its invoice's id and owes a positive face value and the late penalty on it, if that
-- was applied, at a rate of at most 100 %; what was repaid is not negative, and while the pool is
-- open it is less than what is owed; each offer of a buyout is of a positive amount.
pub Reach-IsLedger : (w : World) → Reach w → IsLedger (ledger w.financing)
Reach-IsLedger u (Reach.deployed w e) = rw e (record {
  pools = λ n p h. absurd (ground (arith, h));
  offers = λ n o h. absurd (ground (arith, h));
  rate = tt;
})
Reach-IsLedger u (Reach.next w w' r st) =
    let v = Reach-IsLedger w r in
    Turn-IsLedger (ledger w.financing) (ledger w'.financing) v (Step-Turn w w' v st)

kept_pool :
    (f : ℕ → Option Pool) (id j : ℕ) (p k q : Pool)
    → f id ≡ some p
    → p.is_closed ≡ true
    → f j ≡ some k
    → k.is_closed ≡ false
    → (if id == j then some q else f id) ≡ some p
kept_pool f id j p k q h c g o = elim (Bool-cases (id == j)) [
  | inl e ↦
      let id_is : id ≡ j = ground (arith, e) in
      let same : f id ≡ f j = ap f id_is in absurd (ground (arith, h, c, g, o, same))
  | inr e ↦ ground (arith, e, h)
]

free_pool :
    (f : ℕ → Option Pool) (id j : ℕ) (p q : Pool)
    → f id ≡ some p
    → f j ≡ none
    → (if id == j then some q else f id) ≡ some p
free_pool f id j p q h g = elim (Bool-cases (id == j)) [
  | inl e ↦
      let id_is : id ≡ j = ground (arith, e) in
      let same : f id ≡ f j = ap f id_is in absurd (ground (arith, h, g, same))
  | inr e ↦ ground (arith, e, h)
]

Turn-closed :
    (l l' : Ledger) (id : ℕ) (p : Pool)
    → Turn l l'
    → l.pool id ≡ some p
    → p.is_closed ≡ true
    → l'.pool id ≡ some p
Turn-closed l l' id p (Turn.idles e) h c = ap (λ l. l.pool id) e ∙ h
Turn-closed l l' id p (Turn.sets_rate n small e) h c = ap (λ l. l.pool id) e ∙ h
Turn-closed l l' id p (Turn.opens j q free good e) h c =
    ap (λ l. l.pool id) e ∙ free_pool l.pool id j p q h free
Turn-closed l l' id p (Turn.pays j k q there opened good e) h c =
    ap (λ l. l.pool id) e ∙ kept_pool l.pool id j p k q h c there opened
Turn-closed l l' id p (Turn.offers j o least e) h c = ap (λ l. l.pool id) e ∙ h
Turn-closed l l' id p (Turn.withdraws j e) h c = ap (λ l. l.pool id) e ∙ h
Turn-closed l l' id p (Turn.buys_out j k o there opened least e) h c =
    ap (λ l. l.pool id) e
    ∙ kept_pool l.pool id j p k (record k { repaid_amount = o.amount; is_closed = true }) h c there
        opened

Steps-closed :
    (w w' : World) (id : ℕ) (p : Pool)
    → Steps w w'
    → Reach w
    → w.financing.pool id ≡ some p
    → p.is_closed ≡ true
    → Reach w' × (w'.financing.pool id ≡ some p)
Steps-closed w w' id p Steps.here r h c = (r, h)
Steps-closed w w' id p (Steps.next t u rest st) r h c =
    let (r', h') = Steps-closed w t id p rest r h c in
    (
      Reach.next t u r' st,
      Turn-closed (ledger t.financing) (ledger u.financing) id p
          (Step-Turn t u (Reach-IsLedger t r') st) h' c,
    )

-- A closed pool of a reachable state stays as it is under all later calls, and no repayment of its
-- invoice succeeds any more.
pub closed_pool_is_final :
    (w w' : World) (id : ℕ) (p : Pool)
    → Reach w
    → w.financing.pool id ≡ some p
    → p.is_closed ≡ true
    → Steps w w'
    → (env : Env) (ac : AccessControl) (oracle : PriceOracle) (usdc : Symbol) (tokens : Tokens)
      (payer token : Address) (amount : ℤ) (v : World)
    → (w'.financing.pool id ≡ some p)
      × ¬ (Repayment.repay env ac oracle usdc tokens payer id token amount w' ≡ ok (tt, v))
closed_pool_is_final w w' id p r h c rest env ac oracle usdc tokens payer token amount v =
    let (r', h') = Steps-closed w w' id p rest r h c in (h', λ k. refused k h')
  where
    refused :
        Repayment.repay env ac oracle usdc tokens payer id token amount w' ≡ ok (tt, v)
        → w'.financing.pool id ≡ some p
        → ⊥
    refused k h' =
        let (q, i, least, by, there, is_open, e, frozen, free, paid) =
          repay-eq_ok env ac oracle usdc tokens payer id token amount w' v k in
        ground (arith, h', there, is_open, c)
