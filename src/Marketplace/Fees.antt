-- ===== src/Marketplace/Fees.antt =====
-- The fees of contracts/marketplace/src/lib.rs, and how a contribution is split.
use stellar_invoice_finance.Prelude.{
  ℕ, ◌+◌, ◌≤◌, ◌-◌, ◌≡◌, refl, arith, some, ℤ, pos, ◌+ℤ◌, ◌-ℤ◌, -ℤ_pos, +ℤ_parts, eq_of_parts,
  checked_add, checked-eq_some, Option-some, ap, sym, ◌∙◌, Every-some, ltb, List, [], ◌∷◌, ◌++◌,
  if◌then◌else◌, Bool-cases, Option-cases, inl, inr,
}
use native.Mathlib.Nat.{mul-le-mul_left}
use mathlib.Core.List.{append-nil, append_assoc}
use stellar_invoice_finance.Shared.{Env, Address, Listing, Invoice, ok}
use stellar_invoice_finance.Shared.Token.{Tokens, Transfer}
use stellar_invoice_finance.Shared.Validation.Bounds.{share, share-le, bps_of_normalized-eq_ok}
use stellar_invoice_finance.AccessControl.State.{AccessControl}
use stellar_invoice_finance.InvoiceNft.State.{current}
use stellar_invoice_finance.Treasury.State.{Treasury, get_collected}
use stellar_invoice_finance.Treasury.Admin.{collect_fee}
use stellar_invoice_finance.Marketplace.State.{
  load_config, Marketplace, MarketplaceConfig, World, tier_ordinal, save_listing,
}
use stellar_invoice_finance.Marketplace.Funding
use stellar_invoice_finance.Marketplace.Contribution.{fund_invoice-IsFunding}
use stellar_invoice_finance.Marketplace.Payment.{after_funding, FeeCounted}
use stellar_invoice_finance.Marketplace.Funded.{paid_if}
use stellar_invoice_finance.Marketplace.Rates.{HasFees, load_config-fee}
use stellar_invoice_finance.Marketplace.Rates.Reached.{Reach-HasFees}
use stellar_invoice_finance.Marketplace.Steps.{Reach}

-- A transfer where the amount is not 0.
abbrev pub unless_zero : Address → Address → Address → ℕ → List Transfer
unless_zero token from to n =
    if ltb 0 n then record { token = token; from = from; to = to; amount = pos n } ∷ [] else []

-- What `fund_invoice` asks of the token: the fee to the treasury and the rest to the pool.
abbrev pub asked : Address → Address → MarketplaceConfig → ℕ → ℕ → List Transfer
asked token investor c fee net =
    unless_zero token investor c.treasury fee ++ unless_zero token investor c.financing_pool net

share-bounded : (n bps d : ℕ) → bps ≤ 10000 → share n bps d ≤ n
share-bounded n bps d h =
    let p = share-le n bps d in let q = mul-le-mul_left n h in omega (arith, p, q)

paid_if-eq :
    (token from to : Address) (n : ℕ) (done : List Transfer)
    → paid_if token from to (pos n) done ≡ done ++ unless_zero token from to n
paid_if-eq token from to n done = elim (Bool-cases (ltb 0 n)) [
  | inl b ↦ ground (arith, b)
  | inr b ↦ let e = append-nil done in ground (arith, b, e)
]

asked-eq :
    (token investor : Address) (c : MarketplaceConfig) (fee net : ℕ) (done : List Transfer)
    → paid_if token investor c.financing_pool
        (pos net)
        (paid_if token investor c.treasury (pos fee) done)
      ≡ done ++ asked token investor c fee net
asked-eq token investor c fee net done =
    paid_if-eq token investor c.financing_pool net
      (paid_if token investor c.treasury (pos fee) done)
    ∙ ap (λ ts. ts ++ unless_zero token investor c.financing_pool net)
        (paid_if-eq token investor c.treasury fee done)
    ∙ append_assoc done (unless_zero token investor c.treasury fee)
        (unless_zero token investor c.financing_pool net)

effective-fee :
    (c : MarketplaceConfig) (i : Invoice) (s : Marketplace)
    → HasFees s
    → c.fee_bps ≤ 10000
    → Funding.effective_fee_bps c i s ≤ 10000
effective-fee c i s v h = elim (Option-cases (s.tier_fee_bps (tier_ordinal i.risk_tier))) [
  | inl e ↦ ground (arith, e, h)
  | inr (n, e) ↦
      let k =
        Every-some (λ (n : ℕ). n ≤ 10000) (s.tier_fee_bps (tier_ordinal i.risk_tier)) n
          (v.tiers (tier_ordinal i.risk_tier)) e in
      ground (arith, e, k)
]

collect_fee-adds :
    (token : Address) (fee : ℤ) (v v' : Treasury)
    → collect_fee token fee v ≡ ok (tt, v')
    → get_collected v' token ≡ get_collected v token +ℤ fee
unfolding collect_fee
collect_fee-adds token fee v v' h =
    let (n, e) =
      Option-some (checked_add (get_collected v token) fee) (λ z. ground (arith, h, z)) in
    let n' = checked-eq_some (get_collected v token +ℤ fee) n e in ground (arith, h, e, n')

+ℤ_zero : (a : ℤ) → a ≡ a +ℤ pos 0
+ℤ_zero a = let p = +ℤ_parts a (pos 0) in eq_of_parts a (a +ℤ pos 0) (omega (arith, p))

FeeCounted-adds :
    (token : Address) (fee : ℕ) (x : ℤ) (v v' : Treasury)
    → x ≡ pos fee
    → FeeCounted token x v v'
    → get_collected v' token ≡ get_collected v token +ℤ pos fee
FeeCounted-adds token fee x v v' is_fee (inl (b, h)) =
    collect_fee-adds token x v v' h ∙ ap (λ x. get_collected v token +ℤ x) is_fee
FeeCounted-adds token fee x v v' is_fee (inr (b, e)) =
    let zero : fee ≡ 0 = ground (arith, b, is_fee) in
    ap (λ v. get_collected v token) e
    ∙ +ℤ_zero (get_collected v token)
    ∙ ap (λ n. get_collected v token +ℤ pos n) (sym zero)

stored-contribution :
    (s : Marketplace) (id : ℕ) (investor : Address) (v : ℤ)
    → Funding.get_contribution (Funding.set_contribution id investor v s) id investor ≡ v
stored-contribution s id investor v = ground arith

pub stored-listing :
    (s : Marketplace) (id : ℕ) (l : Listing) → (save_listing id l s).listing id ≡ some l
stored-listing s id l = ground arith

-- In a reachable state, a contribution of `n` splits without a rest into the fee of the invoice's
-- tier, or the flat fee of the config that `load_config` reads, and the net amount: the token is asked
-- for exactly the transfers of these to the treasury and the pool of that config, the
-- total that the treasury has counted grows by the fee, the investor's contribution by the net
-- amount, and the funding of the listing by `n`; it closes when that is what it asks for.
pub fund_invoice_splits :
    (env : Env) (ac : AccessControl) (tokens : Tokens) (investor : Address) (id n : ℕ)
    (w w' : World)
    → Reach w
    → Funding.fund_invoice env ac tokens investor id (pos n) w ≡ ok (tt, w')
    → (l : Listing) × (c : MarketplaceConfig) × (i : Invoice) × (fee net : ℕ) × (load_config
          w.market
        ≡ ok (c, record w.market { config = some c }))
      × (w.market.listing id ≡ some l)
      × (w.pools.nft.invoice id ≡ some (current i))
      × (fee ≡ share n (Funding.effective_fee_bps c i w.market) (tokens.decimals l.token))
      × (fee + net ≡ n)
      × (w'.market.transfers ≡ w.market.transfers ++ asked l.token investor c fee net)
      × (get_collected w'.vault l.token ≡ get_collected w.vault l.token +ℤ pos fee)
      × (Funding.get_contribution w'.market id investor
          ≡ Funding.get_contribution w.market id investor +ℤ pos net)
      × (w'.market.listing id ≡ some (Funding.funded_listing (l.funded_amount +ℤ pos n) l))
fund_invoice_splits env ac tokens investor id n w w' r h =
    let v = Reach-HasFees w r in
    let f = fund_invoice-IsFunding env ac tokens investor id (pos n) w w' h in
    let bps = Funding.effective_fee_bps f.config f.invoice w.market in
    let fee = share n bps (tokens.decimals f.listing.token) in
    let loaded : Marketplace = record w.market { config = some f.config } in
    let fee_is = bps_of_normalized-eq_ok n bps (tokens.decimals f.listing.token) f.fee f.fee_is in
    let below : fee ≤ n = share-bounded n bps (tokens.decimals f.listing.token) (
      effective-fee f.config f.invoice w.market v
        (load_config-fee f.config w.market loaded f.loads v)) in
    let net_is : pos n -ℤ f.fee ≡ pos (n - fee) =
      ap (λ x. pos n -ℤ x) fee_is ∙ -ℤ_pos n fee below in
    let market_is : w'.market
        ≡ after_funding f.config investor id (pos n) (pos fee) (pos (n - fee)) f.listing loaded =
      f.market_is
      ∙ ap (λ x. after_funding f.config investor id (pos n) x (pos n -ℤ f.fee) f.listing loaded)
          fee_is
      ∙ ap (λ x. after_funding f.config investor id (pos n) (pos fee) x f.listing loaded) net_is in
    (
      f.listing,
      f.config,
      f.invoice,
      fee,
      n - fee,
      f.loads,
      f.listed,
      f.found,
      refl,
      omega (arith, below),
      ap (λ s. s.transfers) market_is
          ∙ asked-eq f.listing.token investor f.config fee (n - fee) w.market.transfers,
      FeeCounted-adds f.listing.token fee f.fee w.vault w'.vault fee_is f.counted,
      ap (λ s. Funding.get_contribution s id investor) market_is
          ∙ stored-contribution w.market id investor
              (Funding.get_contribution w.market id investor +ℤ pos (n - fee)),
      ap (λ s. s.listing id) market_is
          ∙ stored-listing w.market id
              (Funding.funded_listing (f.listing.funded_amount +ℤ pos n) f.listing),
    )
