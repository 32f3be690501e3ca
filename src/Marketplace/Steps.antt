-- ===== src/Marketplace/Steps.antt =====
-- The calls of contracts/marketplace/src/lib.rs that succeed, as steps, and the states that they
-- lead to from a marketplace without storage.
use stellar_invoice_finance.Prelude.{ℕ, ℤ, Option, ◌≡◌}
use stellar_invoice_finance.Shared.{Env, Address, Hash, RiskTier, ok}
use stellar_invoice_finance.Shared.Token.{Tokens}
use stellar_invoice_finance.AccessControl.State.{AccessControl}
use stellar_invoice_finance.Marketplace.State.{
  Marketplace, MarketplaceConfig, World, load_config, fresh,
}
use stellar_invoice_finance.Marketplace.Admin
use stellar_invoice_finance.Marketplace.Listings
use stellar_invoice_finance.Marketplace.Funding
use stellar_invoice_finance.Marketplace.Cancellation

-- The calls that change the marketplace alone.
pub data Call (s s' : Marketplace) : Type 0 where
  initialize :
      (a n f t ac rr : Address) (bps : ℕ)
      → Admin.initialize a n f t ac rr bps s ≡ ok (tt, s')
      → Call s s'
  -- `get_config`, `get_admin`, `get_fee_bps` and `get_tier_fee_bps` may store the config.
  get_config : (c : MarketplaceConfig) → load_config s ≡ ok (c, s') → Call s s'
  set_referrer_split_bps :
      (env : Env) (a : Address) (bps : ℕ)
      → Admin.set_referrer_split_bps env a bps s ≡ ok (tt, s')
      → Call s s'
  set_fee_bps :
      (env : Env) (a : Address) (bps : ℕ) → Admin.set_fee_bps env a bps s ≡ ok (tt, s') → Call s s'
  set_tier_fee_bps :
      (env : Env) (a : Address) (tier : RiskTier) (bps : ℕ)
      → Admin.set_tier_fee_bps env a tier bps s ≡ ok (tt, s')
      → Call s s'
  whitelist_token :
      (env : Env) (a token : Address)
      → Admin.whitelist_token env a token s ≡ ok (tt, s')
      → Call s s'
  remove_token_whitelist :
      (env : Env) (a token : Address)
      → Admin.remove_token_whitelist env a token s ≡ ok (tt, s')
      → Call s s'
  propose_upgrade :
      (env : Env) (a : Address) (h : Hash)
      → Admin.propose_upgrade env a h s ≡ ok (tt, s')
      → Call s s'
  execute_upgrade :
      (env : Env) (a : Address) → Admin.execute_upgrade env a s ≡ ok (tt, s') → Call s s'
  cancel_listing :
      (env : Env) (caller : Address) (id : ℕ)
      → Cancellation.cancel_listing env caller id s ≡ ok (tt, s')
      → Call s s'
  request_cancellation :
      (env : Env) (caller : Address) (id : ℕ)
      → Cancellation.request_cancellation env caller id s ≡ ok (tt, s')
      → Call s s'
  admin_confirm_cancellation :
      (env : Env) (a : Address) (id : ℕ)
      → Cancellation.admin_confirm_cancellation env a id s ≡ ok (tt, s')
      → Call s s'
  claim_refund :
      (env : Env) (tokens : Tokens) (investor : Address) (id : ℕ)
      → Cancellation.claim_refund env tokens investor id s ≡ ok (tt, s')
      → Call s s'

-- Between the calls of the marketplace the other contracts may change in any way.
pub data Step (w w' : World) : Type 0 where
  call : Call w.market w'.market → Step w w'
  list_invoice :
      (env : Env) (ac : AccessControl) (seller : Address) (id : ℕ) (asking face : ℤ)
      (token : Address) (deadline : ℕ) (r : Option Address)
      → Listings.list_invoice env ac seller id asking face token deadline r w ≡ ok (tt, w')
      → Step w w'
  fund_invoice :
      (env : Env) (ac : AccessControl) (tokens : Tokens) (investor : Address) (id : ℕ) (amount : ℤ)
      → Funding.fund_invoice env ac tokens investor id amount w ≡ ok (tt, w')
      → Step w w'
  others : w'.market ≡ w.market → Step w w'

pub data Steps (w : World) : World → Type 0 where
  here : Steps w w
  next : (t u : World) → Steps w t → Step t u → Steps w u

pub data Reach : World → Type 0 where
  deployed : (w : World) → w.market ≡ fresh → Reach w
  next : (w w' : World) → Reach w → Step w w' → Reach w'
