-- ===== src/FinancingPool/Accepted.antt =====
-- Accepted buyouts of contracts/financing_pool/src/lib.rs, as changes of the pools and the offers.
use stellar_invoice_finance.Prelude.{
  ℕ, ◌≡◌, arith, true, false, none, some, pos, ◌≤ℤ◌, leb, update, Option-some, ap, sym, ◌∙◌,
  Bool-cases, inl, inr, ◌⊎◌, lookup, contains, ◌∷◌, [], ◌++◌,
}
use stellar_invoice_finance.Shared.{
  Env, Address, Action, Pool, EarlySettlementOffer, ok, bind-eq_ok, read-eq_ok, same_state,
  already_initialized, arithmetic_overflow, Outcome-ok, unauthorized, pool_already_closed,
  checked_add_u32, reject_if-eq_ok, require_auth-eq_ok, ok_or-eq_ok,
}
use stellar_invoice_finance.Shared.Token.{Tokens}
use stellar_invoice_finance.AccessControl.State.{AccessControl}
use stellar_invoice_finance.InvoiceNft.Lifecycle.{set_repaid}
use stellar_invoice_finance.FinancingPool.State.{
  FinancingPool, World, load_positions, set_pool, call_nft, in_pool, set_repayment_lock,
  require_not_paused, load_pool, get_early_settlement,
}
use stellar_invoice_finance.FinancingPool.Yield.{distribute_yield}
use stellar_invoice_finance.FinancingPool.Settlement
use stellar_invoice_finance.FinancingPool.Owed.{positive-eq_pos}
use stellar_invoice_finance.FinancingPool.Closing.{distribute_yield-SamePools}
use stellar_invoice_finance.FinancingPool.Ledger.{Ledger, ledger}
use stellar_invoice_finance.FinancingPool.Turns.{
  put_pool, SamePools-ledger, call_nft-financing, in_pool-eq_ok, load_pool-same,
  require_not_paused-same,
}

-- The pool and the offers after a unanimous acceptance.
abbrev pub bought_out : ℕ → Pool → EarlySettlementOffer → Ledger → Ledger
bought_out id p o l =
    record (put_pool id (record p { repaid_amount = o.amount; is_closed = true }) l) {
      offer = update l.offer id none;
    }

pay_offer-ledger :
    (env : Env) (ac : AccessControl) (tokens : Tokens) (id : ℕ) (p : Pool)
    (o : EarlySettlementOffer) (n : ℕ) (w w' : World)
    → Settlement.pay_offer env ac tokens id p o w ≡ ok (tt, w')
    → o.amount ≡ pos n
    → ledger w'.financing ≡ bought_out id p o (ledger w.financing)
unfolding Settlement.pay_offer
pay_offer-ledger env ac tokens id p o n w w' h e =
    let paid = record p { repaid_amount = o.amount; is_closed = true } in
    let start : World = record w {
      financing = set_pool id paid (set_repayment_lock id true w.financing);
    } in
    let (x1, w1, e1, h1) =
      bind-eq_ok (in_pool (distribute_yield env tokens id p.token o.amount)) _ start (tt, w') h in
    let (x2, w2, e2, h2) =
      bind-eq_ok (call_nft env (λ e. set_repaid e ac env.self id)) _ w1 (tt, w') h1 in
    let left = same_state tt tt _ w' h2 in
    let s2 = call_nft-financing env (λ e. set_repaid e ac env.self id) tt w1 w2 e2 in
    let amount_paid =
      ap (λ x. distribute_yield env tokens id p.token x start.financing) (sym e)
      ∙ in_pool-eq_ok (distribute_yield env tokens id p.token o.amount) tt start w1 e1 in
    let s1 = SamePools-ledger start.financing w1.financing (
      distribute_yield-SamePools env tokens id p.token n start.financing w1.financing
        amount_paid) in
    let clear = λ (l : Ledger). record l { offer = update l.offer id none } in
    ap (λ w. ledger w.financing) (sym left) ∙ ap (λ s. clear (ledger s)) s2 ∙ ap clear s1

abbrev pub accepted_by : Address → ℕ → EarlySettlementOffer → EarlySettlementOffer
accepted_by investor bps o = record o { accepted = o.accepted ++ investor ∷ []; accepted_bps = bps }

settle_offer-ledger :
    (env : Env) (ac : AccessControl) (tokens : Tokens) (id : ℕ) (p : Pool)
    (o : EarlySettlementOffer) (n : ℕ) (w w' : World)
    → Settlement.settle_offer env ac tokens id p o w ≡ ok (tt, w')
    → o.amount ≡ pos n
    → (ledger w'.financing ≡ bought_out id p o (ledger w.financing))
      ⊎ (ledger w'.financing
          ≡ record (ledger w.financing) { offer = update w.financing.early_settlement id (some o) })
unfolding Settlement.settle_offer
settle_offer-ledger env ac tokens id p o n w w' h e = elim (Bool-cases (leb 10000 o.accepted_bps)) [
  | inl b ↦
      let paid : Settlement.pay_offer env ac tokens id p o w ≡ ok (tt, w') = ground (arith, h, b) in
      inl (pay_offer-ledger env ac tokens id p o n w w' paid e)
  | inr b ↦ inr (ground (arith, h, b))
]

offer-same :
    (id : ℕ) (o : EarlySettlementOffer) (s t : FinancingPool)
    → get_early_settlement id s ≡ ok (o, t)
    → (s.early_settlement id ≡ some o) × (t ≡ s)
offer-same id o s t h =
    let (b, e) = Option-some (s.early_settlement id) (λ z. ground (arith, h, z)) in
    (ground (arith, h, e), ground (arith, h, e))

in_pool-keeps :
    {A : Type 0} (m : Action FinancingPool A) (w : World)
    → ((a : A) (t : FinancingPool) → m w.financing ≡ ok (a, t) → t ≡ w.financing)
    → (a : A) (w' : World) → in_pool m w ≡ ok (a, w')
    → w' ≡ w
in_pool-keeps m w keeps a w' h =
    let ((b, t), e) =
      Outcome-ok (m w.financing) (λ x z. ground (arith, h, z)) (λ z. ground (arith, h, z)) in
    let same = keeps b t e in ground (arith, h, e, same)

pub accept_early_settlement-ledger :
    (env : Env) (ac : AccessControl) (tokens : Tokens) (investor : Address) (id : ℕ) (w w' : World)
    → Settlement.accept_early_settlement env ac tokens investor id w ≡ ok (tt, w')
    → ((o : EarlySettlementOffer) → w.financing.early_settlement id ≡ some o → pos 1 ≤ℤ o.amount)
    → (p : Pool) × (o : EarlySettlementOffer) × (w.financing.pool id ≡ some p)
      × (p.is_closed ≡ false)
      × (pos 1 ≤ℤ o.amount)
      × ((ledger w'.financing ≡ bought_out id p o (ledger w.financing))
          ⊎ (ledger w'.financing ≡ record (ledger w.financing) {
            offer = update w.financing.early_settlement id (some o);
          }))
unfolding Settlement.accept_early_settlement
accept_early_settlement-ledger env ac tokens investor id w w' h v =
    let (auth, h1) = require_auth-eq_ok env investor _ w (tt, w') h in
    let (x1, e1, h2) =
      read-eq_ok (in_pool (require_not_paused ac)) _ w (tt, w')
        (in_pool-keeps (require_not_paused ac) w (λ x t. require_not_paused-same ac w.financing t))
        h1 in
    let (free, h3) = reject_if-eq_ok (w.financing.repayment_lock id) unauthorized _ w (tt, w') h2 in
    let (o, e2, h4) =
      read-eq_ok (in_pool (get_early_settlement id)) _ w (tt, w')
        (in_pool-keeps (get_early_settlement id) w (λ o t k. (offer-same id o w.financing t k).1))
        h3 in
    let (p, e3, h5) =
      read-eq_ok (in_pool (load_pool id)) _ w (tt, w')
        (in_pool-keeps (load_pool id) w (λ p t k. (load_pool-same id p w.financing t k).1)) h4 in
    let (opened, h6) = reject_if-eq_ok p.is_closed pool_already_closed _ w (tt, w') h5 in
    let (q, e4, h7) =
      ok_or-eq_ok (lookup investor (load_positions w.financing id)) unauthorized _ w (tt, w') h6 in
    let (new, h8) =
      reject_if-eq_ok (contains investor o.accepted) already_initialized _ w (tt, w') h7 in
    let (bps, e5, h9) =
      ok_or-eq_ok (checked_add_u32 o.accepted_bps q.share_bps) arithmetic_overflow
        (λ bps. Settlement.settle_offer env ac tokens id p (accepted_by investor bps o)) w (tt, w')
        h8 in
    let offered =
      (offer-same id o w.financing w.financing
        (in_pool-eq_ok (get_early_settlement id) o w w e2)).0 in
    let there =
      (load_pool-same id p w.financing w.financing (in_pool-eq_ok (load_pool id) p w w e3)).0 in
    let least = v o offered in
    let (n, k, amount_is) = positive-eq_pos o.amount least in
    (
      p,
      accepted_by investor bps o,
      there,
      opened,
      least,
      settle_offer-ledger env ac tokens id p (accepted_by investor bps o) n w w' h9 amount_is,
    )
