-- ===== src/Marketplace/Funded.antt =====
-- `fund_invoice` of contracts/marketplace/src/lib.rs: where the money goes, and the book.
use stellar_invoice_finance.Prelude.{
  ℕ, ◌≤◌, ◌≡◌, ◌⊎◌, inl, inr, arith, true, false, some, ℤ, pos, ◌+ℤ◌, ◌-ℤ◌, ◌≤ℤ◌, ap, sym, ◌∙◌,
  leb_ℤ, ltb_ℤ, +ℤ_parts, -ℤ_parts, checked-eq_some, checked_sub, checked_add, Bool-cases, List, [],
  ◌∷◌, ◌++◌, Option-some, if◌then◌else◌,
}
use stellar_invoice_finance.Shared.{Env, Address, Listing, Invoice, ok, Outcome-ok, enter}
use stellar_invoice_finance.Shared.Token.{Tokens, Transfer}
use stellar_invoice_finance.Shared.Validation.{bps_of_normalized}
use stellar_invoice_finance.AccessControl.State.{AccessControl}
use stellar_invoice_finance.Treasury.Admin.{collect_fee}
use stellar_invoice_finance.FinancingPool.Repayment.{release_funds}
use stellar_invoice_finance.Marketplace.State.{Marketplace, MarketplaceConfig, World, save_listing}
use stellar_invoice_finance.Marketplace.Funding

pub load_open_listing-eq_ok :
    (env : Env) (id : ℕ) (amount : ℤ) (l : Listing) (s t : Marketplace)
    → Funding.load_open_listing env id amount s ≡ ok (l, t)
    → (s.listing id ≡ some l)
      × (l.is_active ≡ true)
      × (env.now ≤ l.funding_deadline)
      × (l.funded_amount +ℤ amount ≤ℤ l.asking_price)
      × (t ≡ s)
unfolding Funding.load_open_listing
load_open_listing-eq_ok env id amount l s t h =
    let (k, e) = Option-some (s.listing id) (λ z. ground (arith, h, z)) in
    let (r, f) =
      Option-some (checked_sub k.asking_price k.funded_amount) (λ z. ground (arith, h, e, z)) in
    let r' = checked-eq_some (k.asking_price -ℤ k.funded_amount) r f in
    let l' : l ≡ k = ground (arith, h, e, f) in
    let room : leb_ℤ amount r ≡ true = ground (arith, h, e, f) in
    (
      e ∙ ap some (sym l'),
      ground (arith, h, e, f),
      ground (arith, h, e, f),
      rw l' (room_for amount k r r' room),
      ground (arith, h, e, f),
    )
  where
    room_for :
        (amount : ℤ) (k : Listing) (r : ℤ)
        → k.asking_price -ℤ k.funded_amount ≡ r
        → leb_ℤ amount r ≡ true
        → k.funded_amount +ℤ amount ≤ℤ k.asking_price
    room_for amount k r e h =
        let p = +ℤ_parts k.funded_amount amount in
        let q = -ℤ_parts k.asking_price k.funded_amount in ground (arith, e, h, p, q)

-- A transfer where the amount is positive.
abbrev pub paid_if : Address → Address → Address → ℤ → List Transfer → List Transfer
paid_if token from to amount done =
    if ltb_ℤ (pos 0) amount
    then done ++ record { token = token; from = from; to = to; amount = amount } ∷ []
    else done

pub pay_fee-eq_ok :
    (tokens : Tokens) (c : MarketplaceConfig) (token investor : Address) (fee : ℤ) (w w' : World)
    → Funding.pay_fee tokens c token investor fee w ≡ ok (tt, w')
    → (w'.market
        ≡ record w.market { transfers = paid_if token investor c.treasury fee w.market.transfers })
      × (w'.pools ≡ w.pools)
      × (((ltb_ℤ (pos 0) fee ≡ true) × (collect_fee token fee w.vault ≡ ok (tt, w'.vault)))
          ⊎ ((ltb_ℤ (pos 0) fee ≡ false) × (w'.vault ≡ w.vault)))
unfolding Funding.pay_fee
pay_fee-eq_ok tokens c token investor fee w w' h = elim (Bool-cases (ltb_ℤ (pos 0) fee)) [
  | inl b ↦
      let ((u, t), e) =
        Outcome-ok (collect_fee token fee w.vault) (λ x z. ground (arith, h, b, z))
          (λ z. ground (arith, h, b, z)) in
      (ground (arith, h, b, e), ground (arith, h, b, e), inl (b, ground (arith, h, b, e)))
  | inr b ↦ (ground (arith, h, b), ground (arith, h, b), inr (b, ground (arith, h, b)))
]

pub pay_net-eq_ok :
    (tokens : Tokens) (c : MarketplaceConfig) (token investor : Address) (net : ℤ)
    (s s' : Marketplace)
    → Funding.pay_net tokens c token investor net s ≡ ok (tt, s')
    → s' ≡ record s { transfers = paid_if token investor c.financing_pool net s.transfers }
unfolding Funding.pay_net
pay_net-eq_ok tokens c token investor net s s' h = ground (arith, h)

pub record_funding-eq_ok :
    (id : ℕ) (investor : Address) (amount net : ℤ) (l k : Listing) (s s' : Marketplace)
    → Funding.record_funding id investor amount net l s ≡ ok (k, s')
    → (k ≡ Funding.funded_listing (l.funded_amount +ℤ amount) l)
      × (s'
          ≡ save_listing id (Funding.funded_listing (l.funded_amount +ℤ amount) l) (
              Funding.set_contribution id investor
                (Funding.get_contribution s id investor +ℤ net)
                s))
unfolding Funding.record_funding
record_funding-eq_ok id investor amount net l k s s' h =
    let (a, e) = Option-some (checked_add l.funded_amount amount) (λ z. ground (arith, h, z)) in
    let (b, f) =
      Option-some (checked_add (Funding.get_contribution s id investor) net)
        (λ z. ground (arith, h, e, z)) in
    let a' = checked-eq_some (l.funded_amount +ℤ amount) a e in
    let b' = checked-eq_some (Funding.get_contribution s id investor +ℤ net) b f in
    (ground (arith, h, e, f, a'), ground (arith, h, e, f, a', b'))

pub open_pool-eq_ok :
    (env : Env) (ac : AccessControl) (c : MarketplaceConfig) (id : ℕ) (l : Listing) (w w' : World)
    → Funding.open_pool env ac c id l w ≡ ok (tt, w')
    → (w'.market ≡ w.market)
      × (w'.vault ≡ w.vault)
      × (((leb_ℤ l.asking_price l.funded_amount ≡ true)
            × (release_funds (enter env c.financing_pool) ac env.self id l.token w.pools
                ≡ ok (tt, w'.pools)))
          ⊎ ((leb_ℤ l.asking_price l.funded_amount ≡ false) × (w'.pools ≡ w.pools)))
unfolding Funding.open_pool
open_pool-eq_ok env ac c id l w w' h = elim (Bool-cases (leb_ℤ l.asking_price l.funded_amount)) [
  | inl b ↦
      let ((u, t), e) =
        Outcome-ok (release_funds (enter env c.financing_pool) ac env.self id l.token w.pools)
          (λ x z. ground (arith, h, b, z)) (λ z. ground (arith, h, b, z)) in
      (ground (arith, h, b, e), ground (arith, h, b, e), inl (b, ground (arith, h, b, e)))
  | inr b ↦ (ground (arith, h, b), ground (arith, h, b), inr (b, ground (arith, h, b)))
]

pub split_fee-eq_ok :
    (tokens : Tokens) (c : MarketplaceConfig) (l : Listing) (i : Invoice) (amount fee net : ℤ)
    (s s' : Marketplace)
    → Funding.split_fee tokens c l i amount s ≡ ok ((fee, net), s')
    → (bps_of_normalized amount (Funding.effective_fee_bps c i s) (tokens.decimals l.token)
        ≡ ok fee)
      × (net ≡ amount -ℤ fee)
      × (s' ≡ s)
unfolding Funding.split_fee
split_fee-eq_ok tokens c l i amount fee net s s' h =
    let (x, e) =
      Outcome-ok
        (bps_of_normalized amount (Funding.effective_fee_bps c i s) (tokens.decimals l.token))
        (λ x z. ground (arith, h, z)) (λ z. ground (arith, h, z)) in
    let (y, f) = Option-some (checked_sub amount x) (λ z. ground (arith, h, e, z)) in
    let y' = checked-eq_some (amount -ℤ x) y f in
    (ground (arith, h, e, f), ground (arith, h, e, f, y'), ground (arith, h, e, f))
