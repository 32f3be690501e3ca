-- ===== src/Tests/Listings.antt =====
-- Runs of contracts/marketplace/src/lib.rs on listings that are funded, closed or cancelled.
use stellar_invoice_finance.Prelude.{
  ◌≡◌, ◌+◌, ◌+ℤ◌, ◌-ℤ◌, ◌*ℤ◌, ◌/ℤ◌, ◌++◌, ℕ, true, false, none, some, [], ◌∷◌, refl, arith, pos,
  update, checked, if◌then◌else◌,
}
use stellar_invoice_finance.Shared.{
  Env, Invoice, InvoiceStatus, RiskTier, Listing, ok, err, panic, listing_already_cancelled,
}
use stellar_invoice_finance.Shared.Validation.{
  bps_of_normalized, scale_bps, normalize_amount, denormalize_amount,
}
use stellar_invoice_finance.Shared.Validation.Bounds.{share}
use stellar_invoice_finance.AccessControl.State as AccessState
use stellar_invoice_finance.InvoiceNft.State.{current}
use stellar_invoice_finance.InvoiceNft.Lifecycle.{set_listed}
use stellar_invoice_finance.RiskRegistry.State.{is_compliance_attested}
use stellar_invoice_finance.Marketplace.Enlisted.{list_invoice_lists}
use stellar_invoice_finance.Treasury.State.{get_collected}
use stellar_invoice_finance.Treasury.Admin.{collect_fee}
use stellar_invoice_finance.FinancingPool.Released.{new_pool}
use stellar_invoice_finance.Marketplace.State.{
  Marketplace, MarketplaceConfig, World, fresh, load_config, get_tier_fee_bps, legacy_config,
}
use stellar_invoice_finance.Marketplace.Admin
use stellar_invoice_finance.Marketplace.Listings
use stellar_invoice_finance.Marketplace.Funding
use stellar_invoice_finance.Marketplace.Cancellation
use stellar_invoice_finance.Marketplace.Steps.{Steps}
use stellar_invoice_finance.Marketplace.Final.{closed_listing_is_final, refund_is_once}
use stellar_invoice_finance.Marketplace.Fees.{asked, fund_invoice_splits}
use stellar_invoice_finance.Marketplace.Completion.{fund_invoice_completes}
use stellar_invoice_finance.Marketplace.Liveness.{cancellation_is_refunded, refund}
use stellar_invoice_finance.Tests.Run.{after_call}
use stellar_invoice_finance.Tests.Marketplace.{
  env, tokens, with_market, ready, listed, funded, full, list_ok, fund_ok, complete_ok,
  listed-Reach,
}

-- The listing that 60 and 61 have funded.
abbrev full_listing : Listing
full_listing = record (Listings.new_listing 10 1 (pos 400) (pos 500) 8 5000) {
  funded_amount = pos 400;
  is_active = false;
}

abbrev part_listing : Listing
part_listing = record (Listings.new_listing 10 1 (pos 400) (pos 500) 8 5000) {
  funded_amount = pos 100;
}

abbrev closed_market : World
closed_market = with_market (record fresh { listing = update fresh.listing 1 (some full_listing) })

closed_listing_is_final_example :
    (closed_market.market.listing 1 ≡ some full_listing)
    × (Funding.fund_invoice env AccessState.fresh tokens 60 1 (pos 5) closed_market
        ≡ err listing_already_cancelled)
closed_listing_is_final_example =
    closed_listing_is_final closed_market closed_market 1 full_listing Steps.here refl refl env
      AccessState.fresh tokens 60 (pos 5) refl refl (omega arith) (omega arith)

abbrev config : MarketplaceConfig
config = record {
  admin = 1;
  invoice_nft = 2;
  financing_pool = 40;
  treasury = 30;
  access_control = 3;
  risk_registry = 4;
  fee_bps = 200;
  referrer_split_bps = 0;
}

-- 60 has a net contribution of 98 in a listing that is not complete.
abbrev partly_funded : Marketplace
partly_funded = record fresh {
  config = some config;
  listing = update fresh.listing 1 (some part_listing);
  contribution = update fresh.contribution 1 (update (fresh.contribution 1) 60 (some (pos 98)));
}

abbrev late : Env
late = record { now = 6000; self = 50; auth = λ a. true }

abbrev refunded : World
refunded =
    with_market
      (after_call partly_funded (Cancellation.claim_refund late tokens 60 1 partly_funded))

refund_ok : Cancellation.claim_refund late tokens 60 1 partly_funded ≡ ok (tt, refunded.market)
unfolding Cancellation.claim_refund Cancellation.pay_refund load_config
refund_ok = refl

refund_is_once_example :
    ¬ (Cancellation.claim_refund late tokens 60 1 refunded.market ≡ ok (tt, partly_funded))
refund_is_once_example =
    refund_is_once late tokens 60 1 (with_market partly_funded) refunded refunded refund_ok
      Steps.here late tokens partly_funded

cancellation_is_refunded_example :
    (s1 s2 s3 : Marketplace) × (Cancellation.request_cancellation env 10 1 partly_funded
      ≡ ok (tt, s1))
    × (Cancellation.admin_confirm_cancellation env 1 1 s1 ≡ ok (tt, s2))
    × (Cancellation.claim_refund env tokens 60 1 s2 ≡ (if true then ok (tt, s3) else panic))
    × (s3.transfers ≡ refund part_listing config 60 98 ∷ [])
    × (Cancellation.has_claimed s3 1 60 ≡ true)
cancellation_is_refunded_example =
    cancellation_is_refunded env env env tokens config part_listing 1 100 400 98 60 partly_funded
      refl refl refl refl refl refl refl (omega arith) refl (omega arith) refl refl refl
      (omega arith)

fund_invoice_splits_example :
    (l : Listing) × (c : MarketplaceConfig) × (i : Invoice) × (fee net : ℕ) × (load_config
        listed.market
      ≡ ok (c, record listed.market { config = some c }))
    × (listed.market.listing 1 ≡ some l)
    × (listed.pools.nft.invoice 1 ≡ some (current i))
    × (fee ≡ share 100 (Funding.effective_fee_bps c i listed.market) (tokens.decimals l.token))
    × (fee + net ≡ 100)
    × (funded.market.transfers ≡ listed.market.transfers ++ asked l.token 60 c fee net)
    × (get_collected funded.vault l.token ≡ get_collected listed.vault l.token +ℤ pos fee)
    × (Funding.get_contribution funded.market 1 60
        ≡ Funding.get_contribution listed.market 1 60 +ℤ pos net)
    × (funded.market.listing 1 ≡ some (Funding.funded_listing (l.funded_amount +ℤ pos 100) l))
fund_invoice_splits_example =
    fund_invoice_splits env AccessState.fresh tokens 60 1 100 listed funded listed-Reach fund_ok

funded_listing_is : funded.market.listing 1 ≡ some part_listing
unfolding Admin.initialize Admin.whitelist_token load_config Listings.list_invoice Listings.enlist
    Listings.enter_listing Listings.save_referrer set_listed Funding.fund_invoice
    Funding.load_open_listing Funding.contribute Funding.split_fee Funding.take_funding
    Funding.pay_fee Funding.pay_net Funding.record_funding Funding.open_pool collect_fee
    bps_of_normalized scale_bps normalize_amount denormalize_amount checked ◌+ℤ◌ ◌-ℤ◌ ◌*ℤ◌ ◌/ℤ◌
funded_listing_is = refl

fund_invoice_completes_example :
    (i : Invoice) × (late : ℕ) × (100 + 300 ≡ 400)
    × (full.market.listing 1 ≡ some full_listing)
    × (funded.pools.financing.pool 1 ≡ none)
    × (full.pools.financing.pool 1 ≡ some (new_pool 1 8 i late))
    × (funded.pools.nft.invoice 1 ≡ some (current i))
    × (i.status ≡ InvoiceStatus.listed)
    × (full.pools.nft.invoice 1
        ≡ some (current (record i { status = InvoiceStatus.funded; funded_at = some 2000 })))
fund_invoice_completes_example =
    fund_invoice_completes env AccessState.fresh tokens 61 1 400 100 300 part_listing funded full
      complete_ok funded_listing_is refl refl (omega arith)

no_config_fee : get_tier_fee_bps RiskTier.b fresh ≡ ok (50, fresh)
unfolding load_config legacy_config
no_config_fee = refl

list_invoice_lists_example :
    (i : Invoice) × (env.auth 10 ≡ true)
    × (is_compliance_attested ready.pools.risk 10 ≡ true)
    × (ready.market.listing 1 ≡ none)
    × (ready.pools.nft.invoice 1 ≡ some (current i))
    × (i.amount ≡ pos 500)
    × (i.status ≡ InvoiceStatus.created)
    × (listed.market.listing 1 ≡ some (Listings.new_listing 10 1 (pos 400) (pos 500) 8 5000))
    × (listed.pools.nft.invoice 1 ≡ some (current (record i { status = InvoiceStatus.listed })))
list_invoice_lists_example =
    list_invoice_lists env AccessState.fresh 10 1 (pos 400) (pos 500) 8 5000 none ready listed
      list_ok
