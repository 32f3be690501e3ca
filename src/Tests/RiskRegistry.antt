-- ===== src/Tests/RiskRegistry.antt =====
-- Runs of contracts/risk_registry/src/lib.rs: the verifier 50 has a stake of 1000 and has registered
-- the SME 10.
use stellar_invoice_finance.Prelude.{
  ◌≡◌, ◌≤◌, ◌+◌, ◌*◌, ◌/◌, ◌-◌, true, some, [], ◌∷◌, refl, arith, pos, update, get_or, checked,
  ◌-ℤ◌,
}
use stellar_invoice_finance.Shared.{Env, Bytes, SmeProfile}
use stellar_invoice_finance.Shared.Audit.{append_entry}
use stellar_invoice_finance.RiskRegistry.State.{
  RiskRegistry, fresh, get_verifier_stake, get_verifier_reputation, append_audit_entry,
}
use stellar_invoice_finance.RiskRegistry.Profiles.{
  record_default, apply_default, write_default, slash, slash_amount, set_debtor_score,
  require_cooled_down,
}
use stellar_invoice_finance.RiskRegistry.Effects.{record_default_slashes}
use stellar_invoice_finance.RiskRegistry.Steps.{here}
use stellar_invoice_finance.RiskRegistry.Cooldown.{set_debtor_score_cools_down}
use stellar_invoice_finance.Tests.Run.{after_call}

abbrev env : Env
env = record { now = 1000; self = 70; auth = λ a. true }

abbrev later : Env
later = record { now = 5000; self = 70; auth = λ a. true }

abbrev sme : SmeProfile
sme = record {
  address = 10;
  verified = true;
  verifier = 50;
  risk_score = 12;
  total_invoices = 3;
  defaults = 1;
  registered_at = 500;
  compliance_attested = true;
  credit_limit = pos 0;
}

abbrev registry : RiskRegistry
registry = record fresh {
  admin = some 1;
  slash_percentage = some 2500;
  verifier = update fresh.verifier 50 (some true);
  verifier_stake = update fresh.verifier_stake 50 (some (pos 1000));
  verifier_reputation = update fresh.verifier_reputation 50 (some 95);
  sme_profile = update fresh.sme_profile 10 (some sme);
}

abbrev defaulted : RiskRegistry
unfolding record_default apply_default write_default slash slash_amount append_audit_entry
    append_entry checked ◌-ℤ◌
defaulted = after_call registry (record_default env 1 10 registry)

record_default_slashes_example :
    (defaulted.sme_profile 10 ≡ some (record sme { defaults = 1 + 1 }))
    × (get_verifier_stake defaulted 50 ≡ pos (1000 - 1000 * 2500 / 10000))
    × (1000 - 1000 * 2500 / 10000 ≤ 1000)
    × (get_verifier_reputation defaulted 50 ≡ get_or (registry.verifier_reputation 50) 100 - 10)
    × (defaulted.sme_profile 11 ≡ registry.sme_profile 11)
    × (get_verifier_stake defaulted 51 ≡ get_verifier_stake registry 51)
    × (get_verifier_reputation defaulted 51 ≡ get_verifier_reputation registry 51)
unfolding record_default apply_default write_default slash slash_amount append_audit_entry
    append_entry checked ◌-ℤ◌
record_default_slashes_example =
    record_default_slashes env 1 10 11 51 sme 2500 1000 registry defaulted refl refl refl
      (omega arith) refl (omega arith) (omega arith)

-- A hash of 32 bytes.
abbrev debtor : Bytes
debtor =
    1 ∷ 2 ∷ 3 ∷ 4 ∷ 5 ∷ 6 ∷ 7 ∷ 8 ∷ 9 ∷ 10 ∷ 11 ∷ 12 ∷ 13 ∷ 14 ∷ 15 ∷ 16 ∷ 17 ∷ 18 ∷ 19 ∷ 20 ∷ 21
    ∷ 22 ∷ 23 ∷ 24 ∷ 25 ∷ 26 ∷ 27 ∷ 28 ∷ 29 ∷ 30 ∷ 31 ∷ 32 ∷ []

abbrev scored : RiskRegistry
unfolding set_debtor_score require_cooled_down
scored = after_call registry (set_debtor_score env 50 debtor 30 registry)

abbrev scored_again : RiskRegistry
unfolding set_debtor_score require_cooled_down
scored_again = after_call scored (set_debtor_score later 50 debtor 60 scored)

set_debtor_score_cools_down_example : 1000 + 3600 ≤ 5000
unfolding set_debtor_score require_cooled_down
set_debtor_score_cools_down_example =
    set_debtor_score_cools_down env later 50 debtor 30 60 registry scored scored scored_again refl
      here refl
