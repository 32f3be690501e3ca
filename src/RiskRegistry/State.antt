-- ===== src/RiskRegistry/State.antt =====
-- contracts/risk_registry/src/lib.rs: storage, helpers and views.
use stellar_invoice_finance.Prelude.{
  ℕ, Bool, false, not, Option, none, some, ℤ, pos, ◌==◌, get_or, List, [],
}
use stellar_invoice_finance.Shared.{
  Env, Address, Hash, Action, ◌>>=◌, gets, ok_or, zoom, reject_if, SmeProfile, Bytes,
  not_initialized, debtor_not_registered, not_admin, not_verifier, unauthorized, sme_not_registered,
}
use stellar_invoice_finance.Shared.Reentrancy
use stellar_invoice_finance.Shared.Audit.{
  AuditSource, AdminActionType, AuditLog, empty_log, append_entry, page_of, AdminAuditEntry,
}
use stellar_invoice_finance.Shared.Token
use stellar_invoice_finance.Shared.Token.{Transfer, Tokens}

-- One field for each `DataKey` and for the reentrancy lock, `none` where the key is absent; `wasm`
-- is the deployed code, and `transfers` what the contract has asked of token contracts, in order.
pub record RiskRegistry : Type 0 where
  pub admin : Option Address
  pub invoice_nft : Option Address
  pub staking_token : Option Address
  pub minimum_stake : Option ℤ
  pub slash_percentage : Option ℕ
  pub verifier : Address → Option Bool
  pub verifier_stake : Address → Option ℤ
  pub verifier_reputation : Address → Option ℕ
  pub sme_profile : Address → Option SmeProfile
  pub debtor_score : Bytes → Option ℕ
  pub debtor_score_last_update : Address → Bytes → Option ℕ
  pub upgrade_proposal : Option (Hash × ℕ)
  pub audit : AuditLog
  pub lock : Bool
  pub wasm : Option Hash
  pub transfers : List Transfer

abbrev pub fresh : RiskRegistry
fresh = record {
  admin = none;
  invoice_nft = none;
  staking_token = none;
  minimum_stake = none;
  slash_percentage = none;
  verifier = λ a. none;
  verifier_stake = λ a. none;
  verifier_reputation = λ a. none;
  sme_profile = λ a. none;
  debtor_score = λ b. none;
  debtor_score_last_update = λ a b. none;
  upgrade_proposal = none;
  audit = empty_log;
  lock = false;
  wasm = none;
  transfers = [];
}

abbrev pub with_guard : {A : Type 0} → Action RiskRegistry A → Action RiskRegistry A
with_guard = Reentrancy.with_guard (λ (s : RiskRegistry). s.lock) (λ b s. record s { lock = b })

abbrev pub require_admin : Address → Action RiskRegistry (Unit {0})
require_admin caller = do
  stored ← ok_or (← gets (λ s. s.admin)) not_initialized
  reject_if (not (stored == caller)) not_admin

abbrev pub require_verifier : Address → Action RiskRegistry (Unit {0})
require_verifier caller = do
  known ← gets (λ s. get_or (s.verifier caller) false)
  reject_if (not known) not_verifier

abbrev pub require_invoice_nft : Address → Action RiskRegistry (Unit {0})
require_invoice_nft caller = do
  stored ← ok_or (← gets (λ s. s.invoice_nft)) not_initialized
  reject_if (not (stored == caller)) unauthorized

unfoldable pub append_audit_entry : Env → Address → AdminActionType → Action RiskRegistry (Unit {0})
append_audit_entry env actor action =
    zoom (λ (s : RiskRegistry). s.audit) (λ l s. record s { audit = l })
      (append_entry AuditSource.risk_registry env actor action)

abbrev pub get_sme_profile : Address → Action RiskRegistry SmeProfile
get_sme_profile sme = do ok_or (← gets (λ s. s.sme_profile sme)) sme_not_registered

abbrev pub is_verified_sme : RiskRegistry → Address → Bool
is_verified_sme s sme = elim (s.sme_profile sme) [ none ↦ false | some p ↦ p.verified ]

abbrev pub is_compliance_attested : RiskRegistry → Address → Bool
is_compliance_attested s sme = elim (s.sme_profile sme) [
  | none ↦ false
  | some p ↦ p.compliance_attested
]

abbrev pub get_verifier_stake : RiskRegistry → Address → ℤ
get_verifier_stake s v = get_or (s.verifier_stake v) (pos 0)

abbrev pub get_verifier_reputation : RiskRegistry → Address → ℕ
get_verifier_reputation s v = get_or (s.verifier_reputation v) 0

abbrev pub is_verifier : RiskRegistry → Address → Bool
is_verifier s v = get_or (s.verifier v) false

abbrev pub get_debtor_score : Bytes → Action RiskRegistry ℕ
get_debtor_score debtor_hash = do
  ok_or (← gets (λ s. s.debtor_score debtor_hash)) debtor_not_registered

abbrev pub get_admin : Action RiskRegistry Address
get_admin = do ok_or (← gets (λ s. s.admin)) not_initialized

abbrev pub get_audit_log : RiskRegistry → ℕ → ℕ → List AdminAuditEntry
get_audit_log s = page_of s.audit

abbrev pub transfer : Tokens → Address → Address → Address → ℤ → Action RiskRegistry (Unit {0})
transfer tokens token from to amount =
    zoom (λ (s : RiskRegistry). s.transfers) (λ l s. record s { transfers = l })
      (Token.transfer tokens token from to amount)
