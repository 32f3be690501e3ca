-- ===== src/FinancingPool/Settlement.antt =====
-- contracts/financing_pool/src/lib.rs: the early-termination buyout of an invoice.
use stellar_invoice_finance.Prelude.{
  ℕ, true, false, not, Option, none, some, ℤ, pos, ◌==◌, ◌||◌, leb, update, leb_ℤ, ltb_ℤ, is_some,
  [], ◌∷◌, ◌++◌, lookup, contains,
}
use stellar_invoice_finance.Shared.{
  Env, Address, Action, ◌>>=◌, ◌>>◌, gets, ok_or, reject_if, modify, require_auth, checked_add_u32,
  Pool, EarlySettlementOffer, invalid_amount, pool_already_closed, already_initialized,
  unauthorized, arithmetic_overflow,
}
use stellar_invoice_finance.Shared.Token.{Tokens}
use stellar_invoice_finance.Shared.Validation.{max_amount}
use stellar_invoice_finance.AccessControl.State.{AccessControl}
use stellar_invoice_finance.InvoiceNft.State.{InvoiceNft}
use stellar_invoice_finance.InvoiceNft.Lifecycle.{set_repaid}
use stellar_invoice_finance.FinancingPool.State.{
  FinancingPool, World, in_pool, call_nft, set_pool, set_repayment_lock, load_pool, load_positions,
  load_invoice, require_not_paused, transfer, get_early_settlement,
}
use stellar_invoice_finance.FinancingPool.Yield.{distribute_yield}

abbrev pub set_early_settlement : ℕ → Option EarlySettlementOffer → FinancingPool → FinancingPool
set_early_settlement id offer s = record s { early_settlement = update s.early_settlement id offer }

unfoldable pub propose_early_settlement :
    Env → AccessControl → InvoiceNft → Tokens → Address → ℕ → ℤ → Action FinancingPool (Unit {0})
propose_early_settlement env ac nft tokens sme invoice_id amount = do
  require_auth env sme
  require_not_paused ac
  reject_if (leb_ℤ amount (pos 0) || ltb_ℤ max_amount amount) invalid_amount
  pool ← load_pool invoice_id
  reject_if pool.is_closed pool_already_closed
  reject_if (ltb_ℤ amount pool.total_funded || leb_ℤ pool.total_owed amount) invalid_amount
  reject_if (is_some (← gets (λ s. s.early_settlement invoice_id))) already_initialized
  invoice ← load_invoice nft invoice_id
  reject_if (not (invoice.sme == sme)) unauthorized
  transfer tokens pool.token sme env.self amount
  let offer : EarlySettlementOffer = record {
    invoice_id = invoice_id;
    amount = amount;
    accepted_bps = 0;
    accepted = [];
  }
  modify (set_early_settlement invoice_id (some offer))

-- Unanimous acceptance closes the pool, pays the investors and marks the invoice repaid.
unfoldable pub pay_offer :
    Env → AccessControl → Tokens → ℕ → Pool → EarlySettlementOffer → Action World (Unit {0})
pay_offer env ac tokens invoice_id pool offer = do
  in_pool (modify (set_repayment_lock invoice_id true))
  in_pool (
      modify (set_pool invoice_id (record pool { repaid_amount = offer.amount; is_closed = true })))
  in_pool (distribute_yield env tokens invoice_id pool.token offer.amount)
  call_nft env (λ e. set_repaid e ac env.self invoice_id)
  in_pool (modify (set_early_settlement invoice_id none))
  in_pool (modify (set_repayment_lock invoice_id false))

-- Before acceptance is unanimous it is stored.
unfoldable pub settle_offer :
    Env → AccessControl → Tokens → ℕ → Pool → EarlySettlementOffer → Action World (Unit {0})
settle_offer env ac tokens invoice_id pool offer w = elim (leb 10000 offer.accepted_bps) [
  | true ↦ pay_offer env ac tokens invoice_id pool offer w
  | false ↦ in_pool (modify (set_early_settlement invoice_id (some offer))) w
]

unfoldable pub accept_early_settlement :
    Env → AccessControl → Tokens → Address → ℕ → Action World (Unit {0})
accept_early_settlement env ac tokens investor invoice_id = do
  require_auth env investor
  in_pool (require_not_paused ac)
  reject_if (← gets (λ w. w.financing.repayment_lock invoice_id)) unauthorized
  offer ← in_pool (get_early_settlement invoice_id)
  pool ← in_pool (load_pool invoice_id)
  reject_if pool.is_closed pool_already_closed
  positions ← gets (λ w. load_positions w.financing invoice_id)
  position ← ok_or (lookup investor positions) unauthorized
  reject_if (contains investor offer.accepted) already_initialized
  accepted_bps ← ok_or (checked_add_u32 offer.accepted_bps position.share_bps) arithmetic_overflow
  let accepted : EarlySettlementOffer = record offer {
    accepted = offer.accepted ++ investor ∷ [];
    accepted_bps = accepted_bps;
  }
  settle_offer env ac tokens invoice_id pool accepted

unfoldable pub cancel_early_settlement :
    Env → InvoiceNft → Tokens → Address → ℕ → Action FinancingPool (Unit {0})
cancel_early_settlement env nft tokens sme invoice_id = do
  require_auth env sme
  offer ← get_early_settlement invoice_id
  pool ← load_pool invoice_id
  invoice ← load_invoice nft invoice_id
  reject_if (not (invoice.sme == sme)) unauthorized
  modify (set_early_settlement invoice_id none)
  transfer tokens pool.token env.self sme offer.amount
