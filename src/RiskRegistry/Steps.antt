-- ===== src/RiskRegistry/Steps.antt =====
-- The calls of contracts/risk_registry/src/lib.rs that succeed after deployment, as steps.
use stellar_invoice_finance.Prelude.{ℕ, ℤ, Bool, ◌≡◌}
use stellar_invoice_finance.Shared.{Env, Address, Hash, Bytes, ok}
use stellar_invoice_finance.Shared.Token.{Tokens}
use stellar_invoice_finance.RiskRegistry.State.{RiskRegistry}
use stellar_invoice_finance.RiskRegistry.Admin
use stellar_invoice_finance.RiskRegistry.Profiles

pub data Step (s s' : RiskRegistry) : Type 0 where
  transfer_admin :
      (env : Env) (a b : Address) → Admin.transfer_admin env a b s ≡ ok (tt, s') → Step s s'
  add_verifier :
      (env : Env) (tokens : Tokens) (a v : Address) (stake : ℤ)
      → Admin.add_verifier env tokens a v stake s ≡ ok (tt, s')
      → Step s s'
  remove_verifier :
      (env : Env) (tokens : Tokens) (a v : Address)
      → Admin.remove_verifier env tokens a v s ≡ ok (tt, s')
      → Step s s'
  propose_upgrade :
      (env : Env) (a : Address) (h : Hash)
      → Admin.propose_upgrade env a h s ≡ ok (tt, s')
      → Step s s'
  execute_upgrade :
      (env : Env) (a : Address) → Admin.execute_upgrade env a s ≡ ok (tt, s') → Step s s'
  register_sme :
      (env : Env) (v sme : Address) (score : ℕ) (attested : Bool)
      → Profiles.register_sme env v sme score attested s ≡ ok (tt, s')
      → Step s s'
  update_sme_score :
      (env : Env) (v sme : Address) (score : ℕ)
      → Profiles.update_sme_score env v sme score s ≡ ok (tt, s')
      → Step s s'
  set_credit_limit :
      (env : Env) (v sme : Address) (limit : ℤ)
      → Profiles.set_credit_limit env v sme limit s ≡ ok (tt, s')
      → Step s s'
  increment_invoice_count :
      (env : Env) (caller sme : Address)
      → Profiles.increment_invoice_count env caller sme s ≡ ok (tt, s')
      → Step s s'
  record_default :
      (env : Env) (a sme : Address) → Profiles.record_default env a sme s ≡ ok (tt, s') → Step s s'
  set_debtor_score :
      (env : Env) (v : Address) (debtor : Bytes) (score : ℕ)
      → Profiles.set_debtor_score env v debtor score s ≡ ok (tt, s')
      → Step s s'

-- What any number of calls leads to.
pub data Reach (s : RiskRegistry) : RiskRegistry → Type 0 where
  here : Reach s s
  next : {t u : RiskRegistry} → Reach s t → Step t u → Reach s u
