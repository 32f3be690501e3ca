-- ===== src/Marketplace/Listings.antt =====
-- contracts/marketplace/src/lib.rs: `list_invoice`.
use stellar_invoice_finance.Prelude.{
  ℕ, true, false, not, Option, none, some, ℤ, pos, ◌==◌, update, is_some, leb_ℤ, eq_ℤ,
}
use stellar_invoice_finance.Shared.{
  Env, Address, Action, Listing, ◌>>=◌, ◌>>◌, ok, err, gets, lift, reject_if, modify, enter,
  require_auth, invalid_amount, invalid_address, invoice_already_exists,
}
use stellar_invoice_finance.Shared.Validation.{
  require_non_zero_amount, require_within_max_amount, require_future_timestamp,
}
use stellar_invoice_finance.AccessControl.State.{AccessControl}
use stellar_invoice_finance.InvoiceNft.State.{get_invoice}
use stellar_invoice_finance.InvoiceNft.Lifecycle.{set_listed}
use stellar_invoice_finance.Marketplace.State.{
  Marketplace, World, in_market, call_nft, with_guard, load_config, require_not_paused,
  require_compliance_attested, require_whitelisted_token, save_listing,
}

-- The seller may not refer its own invoice.
unfoldable pub save_referrer : Address → ℕ → Option Address → Action Marketplace (Unit {0})
save_referrer seller invoice_id none s = ok (tt, s)
save_referrer seller invoice_id (some r) s = elim (r == seller) [
  | true ↦ err invalid_address
  | false ↦ ok (tt, record s { referrer = update s.referrer invoice_id (some r) })
]

abbrev pub new_listing : Address → ℕ → ℤ → ℤ → Address → ℕ → Listing
new_listing seller invoice_id asking_price face_value token funding_deadline = record {
  invoice_id = invoice_id;
  seller = seller;
  asking_price = asking_price;
  face_value = face_value;
  token = token;
  funded_amount = pos 0;
  funding_deadline = funding_deadline;
  is_active = true;
}

-- The invoice is marked listed, and the listing stored.
unfoldable pub enter_listing : Env → AccessControl → Address → Listing → Action World (Unit {0})
enter_listing env ac nft_contract listing = do
  invoice ← call_nft (get_invoice listing.invoice_id)
  reject_if (not (eq_ℤ invoice.amount listing.face_value)) invalid_amount
  call_nft (set_listed (enter env nft_contract) ac env.self listing.invoice_id)
  in_market (modify (save_listing listing.invoice_id listing))

-- The part of `list_invoice` under the reentrancy guard.
unfoldable pub enlist : Env → AccessControl → Option Address → Listing → Action World (Unit {0})
enlist env ac referrer listing = do
  config ← in_market load_config
  in_market (save_referrer listing.seller listing.invoice_id referrer)
  enter_listing env ac config.invoice_nft listing

unfoldable pub list_invoice :
    Env
    → AccessControl
    → Address
    → ℕ
    → ℤ
    → ℤ
    → Address
    → ℕ
    → Option Address
    → Action World (Unit {0})
list_invoice env ac seller invoice_id asking_price face_value token funding_deadline referrer = do
  require_auth env seller
  in_market (require_not_paused ac)
  lift (require_non_zero_amount asking_price)
  lift (require_non_zero_amount face_value)
  lift (require_within_max_amount asking_price)
  lift (require_within_max_amount face_value)
  lift (require_future_timestamp env funding_deadline)
  reject_if (leb_ℤ face_value asking_price) invalid_amount
  in_market (require_whitelisted_token token)
  rr ← gets (λ w. w.pools.risk)
  in_market (require_compliance_attested rr seller)
  reject_if (is_some (← gets (λ w. w.market.listing invoice_id))) invoice_already_exists
  with_guard (
      enlist env ac referrer
        (new_listing seller invoice_id asking_price face_value token funding_deadline))
