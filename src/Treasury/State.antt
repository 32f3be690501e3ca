-- ===== src/Treasury/State.antt =====
-- contracts/treasury/src/lib.rs: storage, helpers and views.
use stellar_invoice_finance.Prelude.{
  ℕ, Bool, false, not, Option, none, ℤ, pos, ◌==◌, get_or, List, [],
}
use stellar_invoice_finance.Shared.{
  Env, Address, Hash, Action, ◌>>=◌, gets, ok_or, zoom, reject_if, not_initialized, not_admin,
  token_not_whitelisted,
}
use stellar_invoice_finance.Shared.Reentrancy
use stellar_invoice_finance.Shared.Audit.{
  AuditSource, AdminActionType, AdminAuditEntry, AuditLog, empty_log, append_entry, page_of,
}
use stellar_invoice_finance.Shared.Token
use stellar_invoice_finance.Shared.Token.{Transfer, Tokens}

-- One field for each `DataKey` that the code uses and for the reentrancy lock, `none` where the key
-- is absent; `wasm` is the deployed code, and `transfers` what the contract has asked of token
-- contracts, in order.
pub record Treasury : Type 0 where
  pub admin : Option Address
  pub fee_bps : Option ℕ
  pub collected : Address → Option ℤ
  pub whitelisted_token : Address → Option Bool
  pub upgrade_proposal : Option (Hash × ℕ)
  pub withdrawal_cap : Option ℤ
  pub withdrawal_cap_proposal : Option (ℤ × ℕ)
  pub epoch_start : Option ℕ
  pub epoch_withdrawn : Option ℤ
  pub audit : AuditLog
  pub lock : Bool
  pub wasm : Option Hash
  pub transfers : List Transfer

abbrev pub fresh : Treasury
fresh = record {
  admin = none;
  fee_bps = none;
  collected = λ t. none;
  whitelisted_token = λ t. none;
  upgrade_proposal = none;
  withdrawal_cap = none;
  withdrawal_cap_proposal = none;
  epoch_start = none;
  epoch_withdrawn = none;
  audit = empty_log;
  lock = false;
  wasm = none;
  transfers = [];
}

abbrev pub epoch_duration : ℕ
epoch_duration = 86400

abbrev pub with_guard : {A : Type 0} → Action Treasury A → Action Treasury A
with_guard = Reentrancy.with_guard (λ (s : Treasury). s.lock) (λ b s. record s { lock = b })

abbrev pub require_admin : Address → Action Treasury (Unit {0})
require_admin caller = do
  stored ← ok_or (← gets (λ s. s.admin)) not_initialized
  reject_if (not (stored == caller)) not_admin

abbrev pub require_whitelisted_token : Address → Action Treasury (Unit {0})
require_whitelisted_token token = do
  whitelisted ← gets (λ s. get_or (s.whitelisted_token token) false)
  reject_if (not whitelisted) token_not_whitelisted

unfoldable pub append_audit_entry : Env → Address → AdminActionType → Action Treasury (Unit {0})
append_audit_entry env actor action =
    zoom (λ (s : Treasury). s.audit) (λ l s. record s { audit = l })
      (append_entry AuditSource.treasury env actor action)

abbrev pub transfer : Tokens → Address → Address → Address → ℤ → Action Treasury (Unit {0})
transfer tokens token from to amount =
    zoom (λ (s : Treasury). s.transfers) (λ l s. record s { transfers = l })
      (Token.transfer tokens token from to amount)

abbrev pub get_withdrawal_cap : Treasury → ℤ
get_withdrawal_cap s = get_or s.withdrawal_cap (pos 0)

abbrev pub get_fee_bps : Treasury → ℕ
get_fee_bps s = get_or s.fee_bps 50

abbrev pub get_balance : Env → Tokens → Treasury → Address → ℤ
get_balance env tokens s token = tokens.balance s.transfers token env.self

abbrev pub get_collected : Treasury → Address → ℤ
get_collected s token = get_or (s.collected token) (pos 0)

abbrev pub get_admin : Action Treasury Address
get_admin = do ok_or (← gets (λ s. s.admin)) not_initialized

abbrev pub get_audit_log : Treasury → ℕ → ℕ → List AdminAuditEntry
get_audit_log s = page_of s.audit
