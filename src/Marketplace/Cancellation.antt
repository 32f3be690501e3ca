-- ===== src/Marketplace/Cancellation.antt =====
-- contracts/marketplace/src/lib.rs: cancelled listings, and refunds.
use stellar_invoice_finance.Prelude.{
  ℕ, Bool, true, false, not, ◌&&◌, none, some, ℤ, pos, ◌==◌, update, get_or, is_some, leb, leb_ℤ,
  eq_ℤ,
}
use stellar_invoice_finance.Shared.{
  Env, Address, Action, Listing, ◌>>=◌, ◌>>◌, ok, gets, reject_if, modify, pure, require_auth,
  listing_already_cancelled, unauthorized, cancellation_pending, no_cancellation_pending,
  listing_fully_funded, funding_not_expired, refund_already_claimed, no_contribution,
}
use stellar_invoice_finance.Shared.Token.{Tokens}
use stellar_invoice_finance.Marketplace.State.{
  Marketplace, load_config, load_config_as_admin, load_listing, save_listing, transfer,
}
use stellar_invoice_finance.Marketplace.Funding.{get_contribution}

abbrev pub close_listing : ℕ → Listing → Marketplace → Marketplace
close_listing invoice_id listing = save_listing invoice_id (record listing { is_active = false })

-- The active listing, for its seller or the admin.
unfoldable pub load_own_listing : Env → Address → ℕ → Action Marketplace Listing
load_own_listing env caller invoice_id = do
  require_auth env caller
  listing ← load_listing invoice_id
  reject_if (not listing.is_active) listing_already_cancelled
  config ← load_config
  reject_if (not (caller == listing.seller) && not (caller == config.admin)) unauthorized
  pure listing

unfoldable pub cancel_listing : Env → Address → ℕ → Action Marketplace (Unit {0})
cancel_listing env caller invoice_id = do
  listing ← load_own_listing env caller invoice_id
  modify (close_listing invoice_id listing)

-- A listing that nobody has funded closes at once; otherwise the request waits for the admin.
unfoldable pub close_or_request : Address → ℕ → Listing → Action Marketplace (Unit {0})
close_or_request caller invoice_id listing s = elim (eq_ℤ listing.funded_amount (pos 0)) [
  | true ↦ ok (tt, close_listing invoice_id listing s)
  | false ↦
      (do
        reject_if (is_some (← gets (λ s. s.cancellation_request invoice_id))) cancellation_pending
        modify (λ s. record s {
          cancellation_request = update s.cancellation_request invoice_id (some caller);
        }))
        s
]

unfoldable pub request_cancellation : Env → Address → ℕ → Action Marketplace (Unit {0})
request_cancellation env caller invoice_id = do
  listing ← load_own_listing env caller invoice_id
  close_or_request caller invoice_id listing

-- The part of `admin_confirm_cancellation` after the check of the admin.
unfoldable pub confirm_request : ℕ → Action Marketplace (Unit {0})
confirm_request invoice_id = do
  requested ← gets (λ s. is_some (s.cancellation_request invoice_id))
  reject_if (not requested) no_cancellation_pending
  listing ← load_listing invoice_id
  reject_if (not listing.is_active) listing_already_cancelled
  modify (close_listing invoice_id listing)
  modify (λ s. record s {
    cancellation_request = update s.cancellation_request invoice_id none;
    cancellation_confirmed = update s.cancellation_confirmed invoice_id (some true);
  })

unfoldable pub admin_confirm_cancellation : Env → Address → ℕ → Action Marketplace (Unit {0})
admin_confirm_cancellation env admin invoice_id = do
  require_auth env admin
  _ ← load_config_as_admin admin
  confirm_request invoice_id

abbrev pub set_refund_claimed : ℕ → Address → Marketplace → Marketplace
set_refund_claimed invoice_id investor s = record s {
  refund_claimed =
      update s.refund_claimed invoice_id
        (update (s.refund_claimed invoice_id) investor (some true));
}

abbrev pub has_claimed : Marketplace → ℕ → Address → Bool
has_claimed s invoice_id investor = get_or (s.refund_claimed invoice_id investor) false

-- The mark of a claim comes before the transfer.
unfoldable pub pay_refund : Tokens → Address → ℕ → Listing → ℤ → Action Marketplace (Unit {0})
pay_refund tokens investor invoice_id listing net_contributed = do
  modify (set_refund_claimed invoice_id investor)
  config ← load_config
  transfer tokens listing.token config.financing_pool investor net_contributed

unfoldable pub claim_refund : Env → Tokens → Address → ℕ → Action Marketplace (Unit {0})
claim_refund env tokens investor invoice_id = do
  require_auth env investor
  listing ← load_listing invoice_id
  reject_if (leb_ℤ listing.asking_price listing.funded_amount) listing_fully_funded
  confirmed ← gets (λ s. get_or (s.cancellation_confirmed invoice_id) false)
  reject_if (not confirmed && leb env.now listing.funding_deadline) funding_not_expired
  claimed ← gets (λ s. has_claimed s invoice_id investor)
  reject_if claimed refund_already_claimed
  net_contributed ← gets (λ s. get_contribution s invoice_id investor)
  reject_if (leb_ℤ net_contributed (pos 0)) no_contribution
  pay_refund tokens investor invoice_id listing net_contributed
