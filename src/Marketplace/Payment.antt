-- ===== src/Marketplace/Payment.antt =====
-- The payments of a contribution of contracts/marketplace/src/lib.rs, and what they record.
use stellar_invoice_finance.Prelude.{
  ℕ, ◌≡◌, ◌⊎◌, true, false, ℤ, pos, ◌+ℤ◌, ap, sym, ◌∙◌, leb_ℤ, ltb_ℤ,
}
use stellar_invoice_finance.Shared.{Env, Address, Listing, ok, bind-eq_ok, enter}
use stellar_invoice_finance.Shared.Token.{Tokens}
use stellar_invoice_finance.AccessControl.State.{AccessControl}
use stellar_invoice_finance.Treasury.State.{Treasury}
use stellar_invoice_finance.Treasury.Admin.{collect_fee}
use stellar_invoice_finance.FinancingPool.State as PoolState
use stellar_invoice_finance.FinancingPool.Repayment.{release_funds}
use stellar_invoice_finance.Marketplace.State.{
  Marketplace, MarketplaceConfig, World, in_market, save_listing,
}
use stellar_invoice_finance.Marketplace.Funding
use stellar_invoice_finance.Marketplace.Listed.{in_market-eq_ok}
use stellar_invoice_finance.Marketplace.Funded.{
  paid_if, pay_fee-eq_ok, pay_net-eq_ok, record_funding-eq_ok, open_pool-eq_ok,
}

-- The marketplace after a contribution: the fee to the treasury, the rest to the pool, the listing
-- and the contribution.
abbrev pub after_funding :
    MarketplaceConfig → Address → ℕ → ℤ → ℤ → ℤ → Listing → Marketplace → Marketplace
after_funding c investor id amount fee net l s =
    save_listing id (Funding.funded_listing (l.funded_amount +ℤ amount) l) (
      Funding.set_contribution id investor (Funding.get_contribution s id investor +ℤ net)
        (record s {
          transfers =
              paid_if l.token investor c.financing_pool net
                (paid_if l.token investor c.treasury fee s.transfers);
        }))

abbrev pub FeeCounted : Address → ℤ → Treasury → Treasury → Type 0
FeeCounted token fee v v' =
    ((ltb_ℤ (pos 0) fee ≡ true) × (collect_fee token fee v ≡ ok (tt, v')))
    ⊎ ((ltb_ℤ (pos 0) fee ≡ false) × (v' ≡ v))

abbrev pub PoolOpened :
    Env
    → AccessControl
    → MarketplaceConfig
    → ℕ
    → Listing
    → PoolState.World
    → PoolState.World
    → Type 0
PoolOpened env ac c id l p p' =
    ((leb_ℤ l.asking_price l.funded_amount ≡ true)
      × (release_funds (enter env c.financing_pool) ac env.self id l.token p ≡ ok (tt, p')))
    ⊎ ((leb_ℤ l.asking_price l.funded_amount ≡ false) × (p' ≡ p))

PoolOpened-eq :
    (env : Env) (ac : AccessControl) (c : MarketplaceConfig) (id : ℕ) (k l : Listing)
    (p q p' : PoolState.World)
    → k ≡ l
    → p ≡ q
    → PoolOpened env ac c id k p p'
    → PoolOpened env ac c id l q p'
PoolOpened-eq env ac c id k l p q p' e f h = rw (← e, ← f) h

FeeCounted-eq :
    (token : Address) (fee : ℤ) (v u u' : Treasury)
    → u ≡ u'
    → FeeCounted token fee v u
    → FeeCounted token fee v u'
FeeCounted-eq token fee v u u' e h = rw (← e) h

pub take_funding-eq_ok :
    (env : Env) (ac : AccessControl) (tokens : Tokens) (c : MarketplaceConfig) (investor : Address)
    (id : ℕ) (amount fee net : ℤ) (l : Listing) (w w' : World)
    → Funding.take_funding env ac tokens c investor id amount fee net l w ≡ ok (tt, w')
    → (w'.market ≡ after_funding c investor id amount fee net l w.market)
      × FeeCounted l.token fee w.vault w'.vault
      × PoolOpened env ac c id
          (Funding.funded_listing (l.funded_amount +ℤ amount) l)
          w.pools
          w'.pools
unfolding Funding.take_funding
take_funding-eq_ok env ac tokens c investor id amount fee net l w w' h =
    let (u1, w1, e1, h1) =
      bind-eq_ok (Funding.pay_fee tokens c l.token investor fee) _ w (tt, w') h in
    let (u2, w2, e2, h2) =
      bind-eq_ok (in_market (Funding.pay_net tokens c l.token investor net)) _ w1 (tt, w') h1 in
    let (k, w3, e3, h3) =
      bind-eq_ok (in_market (Funding.record_funding id investor amount net l))
        (λ k. Funding.open_pool env ac c id k) w2 (tt, w') h2 in
    let (fee_paid, pools1, counted) = pay_fee-eq_ok tokens c l.token investor fee w w1 e1 in
    let (e2', w2') = in_market-eq_ok (Funding.pay_net tokens c l.token investor net) tt w1 w2 e2 in
    let net_paid = pay_net-eq_ok tokens c l.token investor net w1.market w2.market e2' in
    let (e3', w3') = in_market-eq_ok (Funding.record_funding id investor amount net l) k w2 w3 e3 in
    let (k', recorded) = record_funding-eq_ok id investor amount net l k w2.market w3.market e3' in
    let (market4, vault4, opened) = open_pool-eq_ok env ac c id k w3 w' h3 in
    let put = λ (s : Marketplace).
      save_listing id (Funding.funded_listing (l.funded_amount +ℤ amount) l)
        (Funding.set_contribution id investor (Funding.get_contribution s id investor +ℤ net) s) in
    let pools3 : w3.pools ≡ w.pools = ap (λ w. w.pools) w3' ∙ ap (λ w. w.pools) w2' ∙ pools1 in
    let vault3 : w'.vault ≡ w1.vault = vault4 ∙ ap (λ w. w.vault) w3' ∙ ap (λ w. w.vault) w2' in
    (
      market4
          ∙ recorded
          ∙ ap put net_paid
          ∙ ap
              (λ s. put (record s {
                transfers = paid_if l.token investor c.financing_pool net s.transfers;
              }))
              fee_paid,
      FeeCounted-eq l.token fee w.vault w1.vault w'.vault (sym vault3) counted,
      PoolOpened-eq env ac c id k (Funding.funded_listing (l.funded_amount +ℤ amount) l) w3.pools
          w.pools w'.pools k' pools3 opened,
    )
