-- ===== src/Marketplace/Funding.antt =====
-- contracts/marketplace/src/lib.rs: `fund_invoice`.
use stellar_invoice_finance.Prelude.{
  ℕ, true, false, not, some, ℤ, pos, update, get_or, ltb, leb_ℤ, ltb_ℤ, checked_sub, if◌then◌else◌,
}
use stellar_invoice_finance.Shared.{
  Env, Address, Action, Invoice, Listing, ◌>>=◌, ◌>>◌, ok, gets, ok_or, lift, reject_if, modify,
  pure, enter, require_auth, arithmetic_overflow, listing_already_cancelled,
  funding_deadline_passed, exceeds_funding_target, invoice_frozen,
}
use stellar_invoice_finance.Shared.Validation.{
  require_non_zero_amount, require_within_max_amount, safe_add, safe_sub, bps_of_normalized,
}
use stellar_invoice_finance.Shared.Token.{Tokens}
use stellar_invoice_finance.AccessControl.State.{AccessControl}
use stellar_invoice_finance.InvoiceNft.State.{get_invoice, is_invoice_frozen}
use stellar_invoice_finance.Treasury.Admin.{collect_fee}
use stellar_invoice_finance.FinancingPool.Repayment.{release_funds}
use stellar_invoice_finance.Marketplace.State.{
  Marketplace, MarketplaceConfig, World, in_market, call_nft, call_treasury, call_pool, transfer,
  load_config, require_not_paused, load_listing, save_listing, tier_ordinal,
}

-- The listing, where it may still take `amount`.
unfoldable pub load_open_listing : Env → ℕ → ℤ → Action Marketplace Listing
load_open_listing env invoice_id amount = do
  listing ← load_listing invoice_id
  reject_if (not listing.is_active) listing_already_cancelled
  reject_if (ltb listing.funding_deadline env.now) funding_deadline_passed
  remaining ← lift (safe_sub listing.asking_price listing.funded_amount)
  reject_if (ltb_ℤ remaining amount) exceeds_funding_target
  pure listing

abbrev pub effective_fee_bps : MarketplaceConfig → Invoice → Marketplace → ℕ
effective_fee_bps config invoice s =
    get_or (s.tier_fee_bps (tier_ordinal invoice.risk_tier)) config.fee_bps

-- The fee goes to the treasury, which counts it.
unfoldable pub pay_fee :
    Tokens → MarketplaceConfig → Address → Address → ℤ → Action World (Unit {0})
pay_fee tokens config token investor fee w = elim (ltb_ℤ (pos 0) fee) [
  | false ↦ ok (tt, w)
  | true ↦
      (do
        in_market (transfer tokens token investor config.treasury fee)
        call_treasury (collect_fee token fee))
        w
]

-- The rest goes to the financing pool.
unfoldable pub pay_net :
    Tokens → MarketplaceConfig → Address → Address → ℤ → Action Marketplace (Unit {0})
pay_net tokens config token investor net s = elim (ltb_ℤ (pos 0) net) [
  | false ↦ ok (tt, s)
  | true ↦ transfer tokens token investor config.financing_pool net s
]

abbrev pub set_contribution : ℕ → Address → ℤ → Marketplace → Marketplace
set_contribution invoice_id investor amount s = record s {
  contribution =
      update s.contribution invoice_id (update (s.contribution invoice_id) investor (some amount));
}

abbrev pub get_contribution : Marketplace → ℕ → Address → ℤ
get_contribution s invoice_id investor = get_or (s.contribution invoice_id investor) (pos 0)

-- The listing closes when it is fully funded.
abbrev pub funded_listing : ℤ → Listing → Listing
funded_listing funded_amount listing = record listing {
  funded_amount = funded_amount;
  is_active = if leb_ℤ listing.asking_price funded_amount then false else listing.is_active;
}

unfoldable pub record_funding : ℕ → Address → ℤ → ℤ → Listing → Action Marketplace Listing
record_funding invoice_id investor amount net listing = do
  funded_amount ← lift (safe_add listing.funded_amount amount)
  contributed ← lift (safe_add (← gets (λ s. get_contribution s invoice_id investor)) net)
  modify (set_contribution invoice_id investor contributed)
  modify (save_listing invoice_id (funded_listing funded_amount listing))
  pure (funded_listing funded_amount listing)

-- A listing that is fully funded has its pool opened.
unfoldable pub open_pool :
    Env → AccessControl → MarketplaceConfig → ℕ → Listing → Action World (Unit {0})
open_pool env ac config invoice_id listing w =
    elim (leb_ℤ listing.asking_price listing.funded_amount) [
      | false ↦ ok (tt, w)
      | true ↦
          call_pool
            (release_funds (enter env config.financing_pool) ac env.self invoice_id listing.token) w
    ]

-- The fee of the invoice's tier on an amount, and what is left of it.
unfoldable pub split_fee :
    Tokens → MarketplaceConfig → Listing → Invoice → ℤ → Action Marketplace (ℤ × ℤ)
split_fee tokens config listing invoice amount = do
  bps ← gets (effective_fee_bps config invoice)
  fee ← lift (bps_of_normalized amount bps (tokens.decimals listing.token))
  net ← ok_or (checked_sub amount fee) arithmetic_overflow
  pure (fee, net)

-- What `fund_invoice` does once the fee and the net amount are known.
unfoldable pub take_funding :
    Env
    → AccessControl
    → Tokens
    → MarketplaceConfig
    → Address
    → ℕ
    → ℤ
    → ℤ
    → ℤ
    → Listing
    → Action World (Unit {0})
take_funding env ac tokens config investor invoice_id amount fee net listing = do
  pay_fee tokens config listing.token investor fee
  in_market (pay_net tokens config listing.token investor net)
  updated ← in_market (record_funding invoice_id investor amount net listing)
  open_pool env ac config invoice_id updated

-- The part of `fund_invoice` from the check of the freeze on.
unfoldable pub contribute :
    Env
    → AccessControl
    → Tokens
    → MarketplaceConfig
    → Address
    → ℕ
    → ℤ
    → Listing
    → Action World (Unit {0})
contribute env ac tokens config investor invoice_id amount listing = do
  frozen ← gets (λ w. is_invoice_frozen w.pools.nft invoice_id)
  reject_if frozen invoice_frozen
  invoice ← call_nft (get_invoice invoice_id)
  (fee, net) ← in_market (split_fee tokens config listing invoice amount)
  take_funding env ac tokens config investor invoice_id amount fee net listing

unfoldable pub fund_invoice :
    Env → AccessControl → Tokens → Address → ℕ → ℤ → Action World (Unit {0})
fund_invoice env ac tokens investor invoice_id amount = do
  require_auth env investor
  in_market (require_not_paused ac)
  lift (require_non_zero_amount amount)
  lift (require_within_max_amount amount)
  listing ← in_market (load_open_listing env invoice_id amount)
  config ← in_market load_config
  contribute env ac tokens config investor invoice_id amount listing
