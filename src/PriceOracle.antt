-- ===== src/PriceOracle.antt =====
-- contracts/price_oracle/src/lib.rs: prices of currency pairs, set by the admin, and conversion.
use stellar_invoice_finance.Prelude.{
  ℕ, ◌-◌, Option, none, some, ℤ, pos, ltb, ◌==◌, not, update, is_some, leb_ℤ, checked_mul,
  checked_div, true, false,
}
use stellar_invoice_finance.Shared.{
  Env, Address, Symbol, Action, ◌>>=◌, ◌>>◌, gets, ok, ok_or, reject_if, modify, require_auth, pure,
  already_initialized, invalid_amount, invoice_expired, not_initialized, not_admin,
  arithmetic_overflow,
}

abbrev pub max_staleness_secs : ℕ
max_staleness_secs = 3600

pub record PriceData : Type 0 where
  pub price : ℤ
  pub timestamp : ℕ

-- One field for each `DataKey`.
pub record PriceOracle : Type 0 where
  pub admin : Option Address
  pub price : Symbol → Symbol → Option PriceData

abbrev pub fresh : PriceOracle
fresh = record { admin = none; price = λ a b. none }

abbrev pub require_admin : Address → Action PriceOracle (Unit {0})
require_admin caller = do
  stored ← ok_or (← gets (λ s. s.admin)) not_initialized
  reject_if (not (stored == caller)) not_admin

unfoldable pub initialize : Env → Address → Action PriceOracle (Unit {0})
initialize env admin = do
  reject_if (is_some (← gets (λ s. s.admin))) already_initialized
  modify (λ s. record s { admin = some admin })

unfoldable pub set_price : Env → Address → Symbol → Symbol → ℤ → Action PriceOracle (Unit {0})
set_price env admin base quote price = do
  require_auth env admin
  require_admin admin
  reject_if (leb_ℤ price (pos 0)) invalid_amount
  let data_at : PriceData = record { price = price; timestamp = env.now }
  modify
      (λ s. record s { price = update s.price base (update (s.price base) quote (some data_at)) })

-- The difference of timestamps stops at 0, as `saturating_sub` does.
unfoldable pub get_price : Env → Symbol → Symbol → Action PriceOracle PriceData
get_price env base quote = do
  found ← ok_or (← gets (λ s. s.price base quote)) invalid_amount
  reject_if (ltb max_staleness_secs (env.now - found.timestamp)) invoice_expired
  pure found

unfoldable pub scale_price : ℤ → ℤ → Option ℤ
scale_price amount price = elim (checked_mul amount price) [
  | none ↦ none
  | some v ↦ checked_div v (pos 10000000)
]

unfoldable pub convert : Env → ℤ → Symbol → Symbol → Action PriceOracle ℤ
convert env amount from to s = elim (from == to) [
  | true ↦ ok (amount, s)
  | false ↦
      (do
        found ← get_price env from to
        converted ← ok_or (scale_price amount found.price) arithmetic_overflow
        reject_if (leb_ℤ converted (pos 0)) invalid_amount
        pure converted)
        s
]
