-- ===== src/Marketplace/State.antt =====
-- contracts/marketplace/src/lib.rs: storage, helpers, views, and the contracts that it calls.
use stellar_invoice_finance.Prelude.{
  ℕ, Bool, false, not, Option, none, some, ℤ, ◌==◌, update, get_or, List, [],
}
use stellar_invoice_finance.Shared.{
  Address, Hash, Action, ok, err, panic, ◌>>=◌, ◌>>◌, gets, ok_or, zoom, reject_if, modify, pure,
  RiskTier, aaa, aa, a, b, c, Listing, not_initialized, not_admin, protocol_paused,
  compliance_not_attested, token_not_whitelisted, listing_not_found,
}
use stellar_invoice_finance.Shared.Reentrancy
use stellar_invoice_finance.Shared.Token
use stellar_invoice_finance.Shared.Token.{Transfer, Tokens}
use stellar_invoice_finance.AccessControl.State.{AccessControl, is_paused}
use stellar_invoice_finance.InvoiceNft.State.{InvoiceNft}
use stellar_invoice_finance.RiskRegistry.State.{RiskRegistry, is_compliance_attested}
use stellar_invoice_finance.Treasury.State.{Treasury}
use stellar_invoice_finance.FinancingPool.State as PoolState

pub record MarketplaceConfig : Type 0 where
  pub admin : Address
  pub invoice_nft : Address
  pub financing_pool : Address
  pub treasury : Address
  pub access_control : Address
  pub risk_registry : Address
  pub fee_bps : ℕ
  pub referrer_split_bps : ℕ

-- One field for each `DataKey` and for the reentrancy lock, `none` where the key is absent; `wasm`
-- is the deployed code, and `transfers` what the contract has asked of token contracts, in order.
pub record Marketplace : Type 0 where
  pub config : Option MarketplaceConfig
  pub admin : Option Address
  pub invoice_nft : Option Address
  pub financing_pool : Option Address
  pub treasury : Option Address
  pub access_control : Option Address
  pub risk_registry : Option Address
  pub fee_bps : Option ℕ
  pub listing : ℕ → Option Listing
  pub whitelisted_token : Address → Option Bool
  pub upgrade_proposal : Option (Hash × ℕ)
  pub tier_fee_bps : ℕ → Option ℕ
  pub contribution : ℕ → Address → Option ℤ
  pub refund_claimed : ℕ → Address → Option Bool
  pub referrer : ℕ → Option Address
  pub cancellation_request : ℕ → Option Address
  pub cancellation_confirmed : ℕ → Option Bool
  pub lock : Bool
  pub wasm : Option Hash
  pub transfers : List Transfer

abbrev pub fresh : Marketplace
fresh = record {
  config = none;
  admin = none;
  invoice_nft = none;
  financing_pool = none;
  treasury = none;
  access_control = none;
  risk_registry = none;
  fee_bps = none;
  listing = λ n. none;
  whitelisted_token = λ t. none;
  upgrade_proposal = none;
  tier_fee_bps = λ n. none;
  contribution = λ n a. none;
  refund_claimed = λ n a. none;
  referrer = λ n. none;
  cancellation_request = λ n. none;
  cancellation_confirmed = λ n. none;
  lock = false;
  wasm = none;
  transfers = [];
}

-- The contracts whose storage a call of the marketplace can change.
pub record World : Type 0 where
  pub market : Marketplace
  pub pools : PoolState.World
  pub vault : Treasury

abbrev pub in_market : {A : Type 0} → Action Marketplace A → Action World A
in_market m = zoom (λ (w : World). w.market) (λ s w. record w { market = s }) m

-- A client's call of another contract, where an error is a trap.
abbrev pub client : {S A : Type 0} → Action S A → Action S A
client m s = elim (m s) [ ok r ↦ ok r | err e ↦ panic | panic ↦ panic ]

abbrev pub call_treasury : {A : Type 0} → Action Treasury A → Action World A
call_treasury m = zoom (λ (w : World). w.vault) (λ s w. record w { vault = s }) (client m)

abbrev pub call_pool : {A : Type 0} → Action PoolState.World A → Action World A
call_pool m = zoom (λ (w : World). w.pools) (λ s w. record w { pools = s }) (client m)

abbrev pub call_nft : {A : Type 0} → Action InvoiceNft A → Action World A
call_nft m =
    zoom (λ (w : World). w.pools.nft) (λ s w. record w { pools = record w.pools { nft = s } })
      (client m)

abbrev pub with_guard : {A : Type 0} → Action World A → Action World A
with_guard =
    Reentrancy.with_guard (λ (w : World). w.market.lock)
      (λ b w. record w { market = record w.market { lock = b } })

abbrev pub transfer : Tokens → Address → Address → Address → ℤ → Action Marketplace (Unit {0})
transfer tokens token from to amount =
    zoom (λ (s : Marketplace). s.transfers) (λ l s. record s { transfers = l })
      (Token.transfer tokens token from to amount)

-- The config of the keys of the first version, each of which has to be there.
unfoldable pub legacy_config : Action Marketplace MarketplaceConfig
legacy_config = do
  admin ← ok_or (← gets (λ s. s.admin)) not_initialized
  invoice_nft ← ok_or (← gets (λ s. s.invoice_nft)) not_initialized
  financing_pool ← ok_or (← gets (λ s. s.financing_pool)) not_initialized
  treasury ← ok_or (← gets (λ s. s.treasury)) not_initialized
  access_control ← ok_or (← gets (λ s. s.access_control)) not_initialized
  fee_bps ← ok_or (← gets (λ s. s.fee_bps)) not_initialized
  risk_registry ← ok_or (← gets (λ s. s.risk_registry)) not_initialized
  let config : MarketplaceConfig = record {
    admin = admin;
    invoice_nft = invoice_nft;
    financing_pool = financing_pool;
    treasury = treasury;
    access_control = access_control;
    risk_registry = risk_registry;
    fee_bps = fee_bps;
    referrer_split_bps = 0;
  }
  modify (λ s. record s { config = some config })
  pure config

unfoldable pub load_config : Action Marketplace MarketplaceConfig
load_config s = elim s.config [ some config ↦ ok (config, s) | none ↦ legacy_config s ]

-- It loads the config and checks that the caller is its admin.
abbrev pub load_config_as_admin : Address → Action Marketplace MarketplaceConfig
load_config_as_admin admin = do
  config ← load_config
  reject_if (not (config.admin == admin)) not_admin
  pure config

-- No key, no check.
abbrev pub require_not_paused : AccessControl → Action Marketplace (Unit {0})
require_not_paused ac s = elim s.access_control [
  | none ↦ ok (tt, s)
  | some ac_contract ↦ reject_if (is_paused ac) protocol_paused s
]

abbrev pub require_compliance_attested : RiskRegistry → Address → Action Marketplace (Unit {0})
require_compliance_attested rr sme = do
  _ ← load_config
  reject_if (not (is_compliance_attested rr sme)) compliance_not_attested

abbrev pub require_whitelisted_token : Address → Action Marketplace (Unit {0})
require_whitelisted_token token = do
  whitelisted ← gets (λ s. get_or (s.whitelisted_token token) false)
  reject_if (not whitelisted) token_not_whitelisted

abbrev pub tier_ordinal : RiskTier → ℕ
tier_ordinal aaa = 0
tier_ordinal aa = 1
tier_ordinal a = 2
tier_ordinal b = 3
tier_ordinal c = 4

abbrev pub load_listing : ℕ → Action Marketplace Listing
load_listing invoice_id = do ok_or (← gets (λ s. s.listing invoice_id)) listing_not_found

abbrev pub save_listing : ℕ → Listing → Marketplace → Marketplace
save_listing invoice_id listing s = record s {
  listing = update s.listing invoice_id (some listing);
}

abbrev pub get_listing : ℕ → Action Marketplace Listing
get_listing = load_listing

abbrev pub get_config : Action Marketplace MarketplaceConfig
get_config = load_config

abbrev pub get_admin : Action Marketplace Address
get_admin = do config ← load_config; pure config.admin

abbrev pub get_fee_bps : Action Marketplace ℕ
get_fee_bps = do config ← load_config; pure config.fee_bps

abbrev pub is_token_whitelisted : Marketplace → Address → Bool
is_token_whitelisted s token = get_or (s.whitelisted_token token) false

-- The tier's own fee, or the flat one; 50 where there is no config either.
abbrev pub get_tier_fee_bps : RiskTier → Action Marketplace ℕ
get_tier_fee_bps tier s = elim (s.tier_fee_bps (tier_ordinal tier)) [
  | some fee_bps ↦ ok (fee_bps, s)
  | none ↦ elim (load_config s) [
    | ok (config, t) ↦ ok (config.fee_bps, t)
    | err e ↦ ok (50, s)
    | panic ↦ panic
  ]
]
