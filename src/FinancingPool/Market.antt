-- ===== src/FinancingPool/Market.antt =====
-- contracts/financing_pool/src/lib.rs: the secondary market of positions.
use stellar_invoice_finance.Prelude.{
  ℕ, not, Option, none, some, ℤ, pos, ◌==◌, ◌&&◌, if◌then◌else◌, update, leb_ℤ, is_some, lookup,
  insert, erase,
}
use stellar_invoice_finance.Shared.{
  Env, Address, Action, ◌>>=◌, ◌>>◌, gets, ok_or, reject_if, modify, require_auth, Position,
  PositionSaleOffer, invalid_amount, pool_already_closed, position_not_found, sale_already_listed,
  sale_not_found,
}
use stellar_invoice_finance.Shared.Token.{Tokens}
use stellar_invoice_finance.AccessControl.State.{AccessControl}
use stellar_invoice_finance.FinancingPool.State.{
  FinancingPool, require_not_paused, load_pool, load_positions, transfer,
}

abbrev pub set_sale_offer : ℕ → Address → Option PositionSaleOffer → FinancingPool → FinancingPool
set_sale_offer id seller offer s = record s {
  sale_offer = λ j a. if j == id && a == seller then offer else s.sale_offer j a;
}

unfoldable pub list_position_for_sale :
    Env → AccessControl → Address → ℕ → Address → ℤ → Action FinancingPool (Unit {0})
list_position_for_sale env ac seller invoice_id token price = do
  require_auth env seller
  require_not_paused ac
  reject_if (leb_ℤ price (pos 0)) invalid_amount
  pool ← load_pool invoice_id
  reject_if pool.is_closed pool_already_closed
  positions ← gets (λ s. load_positions s invoice_id)
  reject_if (not (is_some (lookup seller positions))) position_not_found
  reject_if (is_some (← gets (λ s. s.sale_offer invoice_id seller))) sale_already_listed
  let offer : PositionSaleOffer = record {
    seller = seller;
    invoice_id = invoice_id;
    token = token;
    price = price;
  }
  modify (set_sale_offer invoice_id seller (some offer))

unfoldable pub buy_position :
    Env → AccessControl → Tokens → Address → ℕ → Address → Action FinancingPool (Unit {0})
buy_position env ac tokens buyer invoice_id seller = do
  require_auth env buyer
  require_not_paused ac
  offer ← ok_or (← gets (λ s. s.sale_offer invoice_id seller)) sale_not_found
  pool ← load_pool invoice_id
  reject_if pool.is_closed pool_already_closed
  positions ← gets (λ s. load_positions s invoice_id)
  sold ← ok_or (lookup seller positions) position_not_found
  modify (set_sale_offer invoice_id seller none)
  let bought : Position = record {
    investor = buyer;
    invoice_id = invoice_id;
    contributed = sold.contributed;
    share_bps = sold.share_bps;
    yield_claimed = sold.yield_claimed;
  }
  modify (λ s. record s {
    positions = update s.positions invoice_id (some (insert buyer bought (erase seller positions)));
  })
  transfer tokens offer.token buyer seller offer.price
