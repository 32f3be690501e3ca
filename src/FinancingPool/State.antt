-- ===== src/FinancingPool/State.antt =====
-- contracts/financing_pool/src/lib.rs: storage, helpers, views, and the contracts that it calls.
use stellar_invoice_finance.Prelude.{
  ℕ, Bool, false, not, Option, none, some, ℤ, pos, ◌==◌, if◌then◌else◌, get_or, List, [], length,
  Map, values,
}
use stellar_invoice_finance.Shared.{
  Env, Address, Symbol, Hash, Action, ok, err, panic, ◌>>=◌, gets, ok_or, unwrap, zoom, reject_if,
  enter, pure, Invoice, Position, Pool, PositionSaleOffer, EarlySettlementOffer, not_initialized,
  not_admin, protocol_paused, pool_not_found,
}
use stellar_invoice_finance.Shared.Token
use stellar_invoice_finance.Shared.Token.{Transfer, Tokens}
use stellar_invoice_finance.AccessControl.State.{AccessControl, is_paused}
use stellar_invoice_finance.InvoiceNft.State.{InvoiceNft, get_invoice}
use stellar_invoice_finance.RiskRegistry.State.{RiskRegistry}
use stellar_invoice_finance.PriceOracle.{PriceOracle, convert}

-- One field for each `DataKey`, `none` where the key is absent; `repayment_lock` holds where its key
-- is present, `wasm` is the deployed code, and `transfers` what the contract has asked of token
-- contracts, in order. The positions of an invoice are a host map, in the order of its keys.
pub record FinancingPool : Type 0 where
  pub pool : ℕ → Option Pool
  pub positions : ℕ → Option (Map Position)
  pub admin : Option Address
  pub invoice_nft : Option Address
  pub risk_registry : Option Address
  pub treasury : Option Address
  pub late_penalty_bps : Option ℕ
  pub access_control : Option Address
  pub price_oracle : Option Address
  pub repayment_lock : ℕ → Bool
  pub upgrade_proposal : Option (Hash × ℕ)
  pub sale_offer : ℕ → Address → Option PositionSaleOffer
  pub early_settlement : ℕ → Option EarlySettlementOffer
  pub max_position_bps : Option ℕ
  pub aggregate_funded : Address → Option ℤ
  pub wasm : Option Hash
  pub transfers : List Transfer

abbrev pub fresh : FinancingPool
fresh = record {
  pool = λ n. none;
  positions = λ n. none;
  admin = none;
  invoice_nft = none;
  risk_registry = none;
  treasury = none;
  late_penalty_bps = none;
  access_control = none;
  price_oracle = none;
  repayment_lock = λ n. false;
  upgrade_proposal = none;
  sale_offer = λ n a. none;
  early_settlement = λ n. none;
  max_position_bps = none;
  aggregate_funded = λ a. none;
  wasm = none;
  transfers = [];
}

-- The contracts whose storage a call of the pool can change.
pub record World : Type 0 where
  pub financing : FinancingPool
  pub nft : InvoiceNft
  pub risk : RiskRegistry

abbrev pub in_pool : {A : Type 0} → Action FinancingPool A → Action World A
in_pool m = zoom (λ (w : World). w.financing) (λ s w. record w { financing = s }) m

-- A client's call of invoice_nft at the stored address, where an error is a trap.
abbrev pub call_nft : {A : Type 0} → Env → (Env → Action InvoiceNft A) → Action World A
call_nft env m w = elim w.financing.invoice_nft [
  | none ↦ err not_initialized
  | some nft_contract ↦ elim (m (enter env nft_contract) w.nft) [
    | ok (a, s) ↦ ok (a, record w { nft = s })
    | err e ↦ panic
    | panic ↦ panic
  ]
]

abbrev pub set_pool : ℕ → Pool → FinancingPool → FinancingPool
set_pool id p s = record s { pool = λ j. if j == id then some p else s.pool j }

abbrev pub set_repayment_lock : ℕ → Bool → FinancingPool → FinancingPool
set_repayment_lock id b s = record s {
  repayment_lock = λ j. if j == id then b else s.repayment_lock j;
}

abbrev pub load_pool : ℕ → Action FinancingPool Pool
load_pool id = do ok_or (← gets (λ s. s.pool id)) pool_not_found

abbrev pub load_positions : FinancingPool → ℕ → Map Position
load_positions s id = get_or (s.positions id) []

abbrev pub load_invoice : InvoiceNft → ℕ → Action FinancingPool Invoice
load_invoice nft invoice_id = do
  _ ← ok_or (← gets (λ s. s.invoice_nft)) not_initialized
  found ← unwrap (get_invoice invoice_id nft)
  pure found.0

abbrev pub require_not_paused : AccessControl → Action FinancingPool (Unit {0})
require_not_paused ac = do
  _ ← ok_or (← gets (λ s. s.access_control)) not_initialized
  reject_if (is_paused ac) protocol_paused

abbrev pub require_admin : Address → Action FinancingPool (Unit {0})
require_admin caller = do
  stored ← ok_or (← gets (λ s. s.admin)) not_initialized
  reject_if (not (stored == caller)) not_admin

abbrev pub transfer : Tokens → Address → Address → Address → ℤ → Action FinancingPool (Unit {0})
transfer tokens token from to amount =
    zoom (λ (s : FinancingPool). s.transfers) (λ l s. record s { transfers = l })
      (Token.transfer tokens token from to amount)

-- `usdc` is the symbol that the code builds from "USDC".
unfoldable pub convert_if_needed : Env → PriceOracle → Symbol → ℤ → Symbol → Action FinancingPool ℤ
convert_if_needed env oracle usdc amount invoice_currency s = elim s.price_oracle [
  | none ↦ ok (amount, s)
  | some oracle_addr ↦ elim (convert (enter env oracle_addr) amount invoice_currency usdc oracle) [
    | ok (converted, o) ↦ ok (converted, s)
    | err e ↦ panic
    | panic ↦ panic
  ]
]

abbrev pub get_early_settlement : ℕ → Action FinancingPool EarlySettlementOffer
get_early_settlement id = do ok_or (← gets (λ s. s.early_settlement id)) pool_not_found

abbrev pub get_pool : ℕ → Action FinancingPool Pool
get_pool = load_pool

abbrev pub get_max_position_bps : FinancingPool → ℕ
get_max_position_bps s = get_or s.max_position_bps 5000

abbrev pub get_positions : FinancingPool → ℕ → List Position
get_positions s id = values (load_positions s id)

abbrev pub get_positions_count : FinancingPool → ℕ → ℕ
get_positions_count s id = length (load_positions s id)

abbrev pub get_aggregate_funded : FinancingPool → Address → ℤ
get_aggregate_funded s token = get_or (s.aggregate_funded token) (pos 0)
