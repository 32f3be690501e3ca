-- ===== src/Shared/Validation.antt =====
-- contracts/shared/src/validation.rs: guards, and amounts in basis points and decimals.
pub mod Bounds
use stellar_invoice_finance.Prelude.{
  ℕ, ◌-◌, ◌^◌, Bool, ◌||◌, Option, none, some, ℤ, pos, ltb, leb, ◌==◌, if◌then◌else◌, length, ltb_ℤ,
  leb_ℤ, checked, checked_mul, checked_div, checked_add, checked_sub, eq_ℤ,
}
use stellar_invoice_finance.Shared.Errors.{
  KoraError, invalid_amount, invalid_due_date, invalid_risk_score, invalid_fee_rate, empty_string,
  empty_bytes, field_too_long, invalid_address, arithmetic_overflow, arithmetic_underflow,
  invalid_length,
}
use stellar_invoice_finance.Shared.Host.{Env, Address, Outcome, ok, err, panic}
use stellar_invoice_finance.Shared.Types.{Bytes}

abbrev pub upgrade_timelock_delay : ℕ
upgrade_timelock_delay = 86400

-- `i128::MAX / 2`
abbrev pub max_amount : ℤ
max_amount = pos (2 ^ 126 - 1)

abbrev pub max_ipfs_cid_len : ℕ
max_ipfs_cid_len = 128

abbrev pub max_debtor_hash_len : ℕ
max_debtor_hash_len = 64

abbrev pub standard_decimals : ℕ
standard_decimals = 7

abbrev reject : Bool → KoraError → Outcome (Unit {0})
reject c e = if c then err e else ok tt

infixl 5 ◌>>=◌
abbrev pub ◌>>=◌ : {A B : Type 0} → Outcome A → (A → Outcome B) → Outcome B
ok a >>= f = f a
err e >>= f = err e
panic >>= f = panic

abbrev pub ok_or : {A : Type 0} → Option A → KoraError → Outcome A
ok_or none e = err e
ok_or (some a) e = ok a

abbrev and_then : {A B : Type 0} → Option A → (A → Option B) → Option B
and_then none f = none
and_then (some a) f = f a

abbrev pub require_within_max_amount : ℤ → Outcome (Unit {0})
require_within_max_amount amount = reject (ltb_ℤ max_amount amount) invalid_amount

abbrev pub require_non_zero_amount : ℤ → Outcome (Unit {0})
require_non_zero_amount amount = reject (leb_ℤ amount (pos 0)) invalid_amount

abbrev pub require_non_negative_amount : ℤ → Outcome (Unit {0})
require_non_negative_amount amount = reject (ltb_ℤ amount (pos 0)) invalid_amount

abbrev pub require_amount_within_bounds : ℤ → ℤ → Outcome (Unit {0})
require_amount_within_bounds amount max =
    reject (ltb_ℤ amount (pos 0) || ltb_ℤ max amount) invalid_amount

abbrev pub require_future_timestamp : Env → ℕ → Outcome (Unit {0})
require_future_timestamp env ts = reject (leb ts env.now) invalid_due_date

abbrev pub require_valid_risk_score : ℕ → Outcome (Unit {0})
require_valid_risk_score score = reject (ltb 100 score) invalid_risk_score

abbrev pub require_valid_fee_bps : ℕ → Outcome (Unit {0})
require_valid_fee_bps bps = reject (ltb 10000 bps) invalid_fee_rate

abbrev pub require_valid_bps_range : ℕ → ℕ → ℕ → Outcome (Unit {0})
require_valid_bps_range bps min_bps max_bps =
    reject (ltb bps min_bps || ltb max_bps bps) invalid_fee_rate

abbrev pub require_non_empty_string : Bytes → Outcome (Unit {0})
require_non_empty_string s = reject (length s == 0) empty_string

abbrev pub require_exact_length : Bytes → ℕ → Outcome (Unit {0})
require_exact_length bytes expected = if length bytes == expected then ok tt else err invalid_length

abbrev pub require_non_empty_bytes : Bytes → Outcome (Unit {0})
require_non_empty_bytes b = reject (length b == 0) empty_bytes

abbrev pub require_max_length_string : Bytes → ℕ → Outcome (Unit {0})
require_max_length_string s max_bytes = reject (ltb max_bytes (length s)) field_too_long

abbrev pub require_max_length_bytes : Bytes → ℕ → Outcome (Unit {0})
require_max_length_bytes b max_bytes = reject (ltb max_bytes (length b)) field_too_long

abbrev pub require_not_self : Env → Address → Outcome (Unit {0})
require_not_self env addr = reject (addr == env.self) invalid_address

abbrev pub require_distinct : Address → Address → Outcome (Unit {0})
require_distinct a b = reject (a == b) invalid_address

-- `amount.checked_mul(bps).and_then(|v| v.checked_div(10_000))`
unfoldable pub scale_bps : ℤ → ℕ → Outcome ℤ
scale_bps amount bps =
    ok_or (and_then (checked_mul amount (pos bps)) (λ v. checked_div v (pos 10000)))
      arithmetic_overflow

unfoldable pub bps_of : ℤ → ℕ → Outcome ℤ
bps_of amount bps = if ltb_ℤ amount (pos 0) then err invalid_amount else scale_bps amount bps

abbrev pub safe_add : ℤ → ℤ → Outcome ℤ
safe_add a b = ok_or (checked_add a b) arithmetic_overflow

abbrev pub safe_sub : ℤ → ℤ → Outcome ℤ
safe_sub a b = ok_or (checked_sub a b) arithmetic_underflow

abbrev pub safe_mul : ℤ → ℤ → Outcome ℤ
safe_mul a b = ok_or (checked_mul a b) arithmetic_overflow

unfoldable pub safe_div : ℤ → ℤ → Outcome ℤ
safe_div a b =
    if eq_ℤ b (pos 0) then err invalid_amount else ok_or (checked_div a b) arithmetic_overflow

-- `10i128.checked_pow(n)`
abbrev pub checked_pow10 : ℕ → Option ℤ
checked_pow10 n = checked (pos (10 ^ n))

unfoldable pub normalize_amount : ℤ → ℕ → Outcome ℤ
normalize_amount amount token_decimals =
    if token_decimals == standard_decimals
    then ok amount
    else if ltb token_decimals standard_decimals
    then (ok_or (checked_pow10 (standard_decimals - token_decimals)) arithmetic_overflow
        >>= λ scale. ok_or (checked_mul amount scale) arithmetic_overflow)
    else (ok_or (checked_pow10 (token_decimals - standard_decimals)) arithmetic_overflow
        >>= λ scale. ok_or (checked_div amount scale) arithmetic_overflow)

unfoldable pub denormalize_amount : ℤ → ℕ → Outcome ℤ
denormalize_amount amount token_decimals =
    if token_decimals == standard_decimals
    then ok amount
    else if ltb token_decimals standard_decimals
    then (ok_or (checked_pow10 (standard_decimals - token_decimals)) arithmetic_overflow
        >>= λ scale. ok_or (checked_div amount scale) arithmetic_overflow)
    else (ok_or (checked_pow10 (token_decimals - standard_decimals)) arithmetic_overflow
        >>= λ scale. ok_or (checked_mul amount scale) arithmetic_overflow)

unfoldable pub bps_of_normalized : ℤ → ℕ → ℕ → Outcome ℤ
bps_of_normalized amount bps token_decimals =
    if ltb_ℤ amount (pos 0)
    then err invalid_amount
    else normalize_amount amount token_decimals >>= λ normalized.
        scale_bps normalized bps >>= λ result. denormalize_amount result token_decimals
