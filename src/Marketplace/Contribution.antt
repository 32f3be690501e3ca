-- ===== src/Marketplace/Contribution.antt =====
-- `fund_invoice` of contracts/marketplace/src/lib.rs as a whole.
use stellar_invoice_finance.Prelude.{
  ℕ, ◌≤◌, ◌≡◌, arith, true, false, some, ℤ, pos, ◌+ℤ◌, ◌-ℤ◌, ◌≤ℤ◌, ap, sym, ◌∙◌,
}
use stellar_invoice_finance.Shared.{
  Env, Address, Listing, Invoice, ok, bind-eq_ok, reject_if-eq_ok, require_auth-eq_ok, lift-eq_ok,
  invoice_frozen,
}
use stellar_invoice_finance.Shared.Token.{Tokens}
use stellar_invoice_finance.Shared.Validation.{
  require_non_zero_amount, require_within_max_amount, bps_of_normalized,
}
use stellar_invoice_finance.AccessControl.State.{AccessControl}
use stellar_invoice_finance.InvoiceNft.State.{get_invoice, is_invoice_frozen, current}
use stellar_invoice_finance.Marketplace.State.{
  MarketplaceConfig, World, load_config, in_market, call_nft, require_not_paused,
}
use stellar_invoice_finance.Marketplace.Funding
use stellar_invoice_finance.Marketplace.Listed.{in_market-eq_ok, positive, require_not_paused-eq_ok}
use stellar_invoice_finance.Marketplace.Guards.{load_config-eq_ok}
use stellar_invoice_finance.Marketplace.Funded.{load_open_listing-eq_ok, split_fee-eq_ok}
use stellar_invoice_finance.Marketplace.Payment.{
  after_funding, FeeCounted, PoolOpened, take_funding-eq_ok,
}

get_invoice-same :
    (id : ℕ) (i : Invoice) (w w' : World)
    → call_nft (get_invoice id) w ≡ ok (i, w')
    → (w.pools.nft.invoice id ≡ some (current i)) × (w' ≡ w)
get_invoice-same id i w w' h = (ground (arith, h), ground (arith, h))

contribute-eq_ok :
    (env : Env) (ac : AccessControl) (tokens : Tokens) (c : MarketplaceConfig) (investor : Address)
    (id : ℕ) (amount : ℤ) (l : Listing) (w w' : World)
    → Funding.contribute env ac tokens c investor id amount l w ≡ ok (tt, w')
    → (i : Invoice) × (fee : ℤ) × (is_invoice_frozen w.pools.nft id ≡ false)
      × (w.pools.nft.invoice id ≡ some (current i))
      × (bps_of_normalized amount (Funding.effective_fee_bps c i w.market) (tokens.decimals l.token)
          ≡ ok fee)
      × (w'.market ≡ after_funding c investor id amount fee (amount -ℤ fee) l w.market)
      × FeeCounted l.token fee w.vault w'.vault
      × PoolOpened env ac c id
          (Funding.funded_listing (l.funded_amount +ℤ amount) l)
          w.pools
          w'.pools
unfolding Funding.contribute
contribute-eq_ok env ac tokens c investor id amount l w w' h =
    let (unfrozen, h1) =
      reject_if-eq_ok (is_invoice_frozen w.pools.nft id) invoice_frozen _ w (tt, w') h in
    let (i, t, e, h2) = bind-eq_ok (call_nft (get_invoice id)) _ w (tt, w') h1 in
    let (found, t') = get_invoice-same id i w t e in
    let ((fee, net), u, f, h3) =
      bind-eq_ok (in_market (Funding.split_fee tokens c l i amount))
        (λ (fee, net). Funding.take_funding env ac tokens c investor id amount fee net l) t (tt, w')
        h2 in
    let (split, u') = in_market-eq_ok (Funding.split_fee tokens c l i amount) (fee, net) t u f in
    let (fee_is, net_is, same) =
      split_fee-eq_ok tokens c l i amount fee net t.market u.market split in
    let u'' : u ≡ w = u' ∙ ap (λ s. record t { market = s }) same ∙ t' in
    let taken : Funding.take_funding env ac tokens c investor id amount fee (amount -ℤ fee) l w
        ≡ ok (tt, w') =
      ap (λ n. Funding.take_funding env ac tokens c investor id amount fee n l w) (sym net_is)
      ∙ ap (Funding.take_funding env ac tokens c investor id amount fee net l) (sym u'')
      ∙ h3 in
    let (market, counted, opened) =
      take_funding-eq_ok env ac tokens c investor id amount fee (amount -ℤ fee) l w w' taken in
    (
      i,
      fee,
      unfrozen,
      found,
      ap
            (λ w.
              bps_of_normalized amount (Funding.effective_fee_bps c i w.market)
                (tokens.decimals l.token))
            (sym t')
          ∙ fee_is,
      market,
      counted,
      opened,
    )

-- What a contribution that succeeds comes to.
pub record IsFunding (env : Env) (ac : AccessControl) (tokens : Tokens) (investor : Address)
    (id : ℕ) (amount : ℤ) (w w' : World) : Type 0 where
  pub listing : Listing
  pub config : MarketplaceConfig
  pub invoice : Invoice
  pub fee : ℤ
  pub loads : load_config w.market ≡ ok (config, record w.market { config = some config })
  pub auth : env.auth investor ≡ true
  pub listed : w.market.listing id ≡ some listing
  pub active : listing.is_active ≡ true
  pub in_time : env.now ≤ listing.funding_deadline
  pub positive : pos 1 ≤ℤ amount
  pub room : listing.funded_amount +ℤ amount ≤ℤ listing.asking_price
  pub unfrozen : is_invoice_frozen w.pools.nft id ≡ false
  pub found : w.pools.nft.invoice id ≡ some (current invoice)
  pub fee_is :
      bps_of_normalized amount
        (Funding.effective_fee_bps config invoice w.market)
        (tokens.decimals listing.token)
      ≡ ok fee
  pub market_is :
      w'.market
      ≡ after_funding config investor id amount fee
          (amount -ℤ fee)
          listing
          (record w.market { config = some config })
  pub counted : FeeCounted listing.token fee w.vault w'.vault
  pub opened :
      PoolOpened env ac config id
        (Funding.funded_listing (listing.funded_amount +ℤ amount) listing)
        w.pools
        w'.pools

pub fund_invoice-IsFunding :
    (env : Env) (ac : AccessControl) (tokens : Tokens) (investor : Address) (id : ℕ) (amount : ℤ)
    (w w' : World)
    → Funding.fund_invoice env ac tokens investor id amount w ≡ ok (tt, w')
    → IsFunding env ac tokens investor id amount w w'
unfolding Funding.fund_invoice
fund_invoice-IsFunding env ac tokens investor id amount w w' h =
    let (auth, h1) = require_auth-eq_ok env investor _ w (tt, w') h in
    let (x1, w1, e1, h2) = bind-eq_ok (in_market (require_not_paused ac)) _ w (tt, w') h1 in
    let (x2, least, h3) = lift-eq_ok (require_non_zero_amount amount) _ w1 (tt, w') h2 in
    let (x3, most, h4) = lift-eq_ok (require_within_max_amount amount) _ w1 (tt, w') h3 in
    let (l, w2, e2, h5) =
      bind-eq_ok (in_market (Funding.load_open_listing env id amount)) _ w1 (tt, w') h4 in
    let (c, w3, e3, h6) =
      bind-eq_ok (in_market load_config)
        (λ c. Funding.contribute env ac tokens c investor id amount l) w2 (tt, w') h5 in
    let (running, w1') = in_market-eq_ok (require_not_paused ac) tt w w1 e1 in
    let same1 : w1 ≡ w =
      w1'
      ∙ ap (λ s. record w { market = s })
          (require_not_paused-eq_ok ac w.market w1.market running) in
    let (opened, w2') = in_market-eq_ok (Funding.load_open_listing env id amount) l w1 w2 e2 in
    let (listed, active, in_time, room, same2) =
      load_open_listing-eq_ok env id amount l w1.market w2.market opened in
    let same : w2 ≡ w = w2' ∙ ap (λ s. record w1 { market = s }) same2 ∙ same1 in
    let (loaded, w3') = in_market-eq_ok load_config c w2 w3 e3 in
    let start : World = record w { market = record w.market { config = some c } } in
    let w3'' : w3 ≡ start =
      w3'
      ∙ ap (λ s. record w2 { market = s }) (load_config-eq_ok c w2.market w3.market loaded)
      ∙ ap (λ (w : World). record w { market = record w.market { config = some c } }) same in
    let (i, fee, unfrozen, found, fee_is, market, counted, pool) =
      contribute-eq_ok env ac tokens c investor id amount l start w'
        (ap (Funding.contribute env ac tokens c investor id amount l) (sym w3'') ∙ h6) in
    record {
      listing = l;
      config = c;
      invoice = i;
      fee = fee;
      loads = ap (λ w. load_config w.market) (sym same) ∙ loaded ∙ ap (λ w. ok (c, w.market)) w3'';
      auth = auth;
      listed = ap (λ w. w.market.listing id) (sym same1) ∙ listed;
      active = active;
      in_time = in_time;
      positive = positive amount least;
      room = room;
      unfrozen = unfrozen;
      found = found;
      fee_is = fee_is;
      market_is = market;
      counted = counted;
      opened = pool;
    }
