-- ===== src/RiskRegistry/Profiles.antt =====
-- contracts/risk_registry/src/lib.rs: SME profiles, defaults with their slashing, and debtor scores.
use stellar_invoice_finance.Prelude.{
  ℕ, ◌-◌, ◌*◌, ◌/◌, ◌^◌, true, false, Bool, none, some, ℤ, pos, ltb, update, is_some, get_or, ltb_ℤ,
  checked_sub, pos_part, if◌then◌else◌,
}
use stellar_invoice_finance.Shared.{
  Env, Address, Action, ◌>>=◌, ◌>>◌, gets, ok, panic, ok_or, lift, reject_if, modify, require_auth,
  checked_add_u32, checked_add_u64, Bytes, bytes_eq, SmeProfile, already_initialized,
  not_initialized, invalid_amount, arithmetic_overflow, arithmetic_underflow,
  score_update_cooldown_not_elapsed,
}
use stellar_invoice_finance.Shared.Validation.{require_valid_risk_score, require_exact_length}
use stellar_invoice_finance.Shared.Audit.{AdminActionType}
use stellar_invoice_finance.RiskRegistry.State.{
  RiskRegistry, with_guard, require_admin, require_verifier, require_invoice_nft,
  append_audit_entry, get_sme_profile,
}

abbrev pub min_score_update_interval : ℕ
min_score_update_interval = 3600

abbrev pub save_profile : Address → SmeProfile → RiskRegistry → RiskRegistry
save_profile sme p s = record s { sme_profile = update s.sme_profile sme (some p) }

unfoldable pub register_sme : Env → Address → Address → ℕ → Bool → Action RiskRegistry (Unit {0})
register_sme env verifier sme risk_score compliance_attested = do
  require_auth env verifier
  require_verifier verifier
  lift (require_valid_risk_score risk_score)
  reject_if (is_some (← gets (λ s. s.sme_profile sme))) already_initialized
  let profile : SmeProfile = record {
    address = sme;
    verified = true;
    verifier = verifier;
    risk_score = risk_score;
    total_invoices = 0;
    defaults = 0;
    registered_at = env.now;
    compliance_attested = compliance_attested;
    credit_limit = pos 0;
  }
  modify (save_profile sme profile)

unfoldable pub update_sme_score : Env → Address → Address → ℕ → Action RiskRegistry (Unit {0})
update_sme_score env verifier sme new_score = do
  require_auth env verifier
  require_verifier verifier
  lift (require_valid_risk_score new_score)
  with_guard (do
    profile ← get_sme_profile sme
    modify (save_profile sme (record profile { risk_score = new_score })))

unfoldable pub set_credit_limit : Env → Address → Address → ℤ → Action RiskRegistry (Unit {0})
set_credit_limit env verifier sme credit_limit = do
  require_auth env verifier
  require_verifier verifier
  reject_if (ltb_ℤ credit_limit (pos 0)) invalid_amount
  profile ← get_sme_profile sme
  modify (save_profile sme (record profile { credit_limit = credit_limit }))

unfoldable pub increment_invoice_count : Env → Address → Address → Action RiskRegistry (Unit {0})
increment_invoice_count env caller sme = do
  require_auth env caller
  require_invoice_nft caller
  profile ← get_sme_profile sme
  total ← ok_or (checked_add_u32 profile.total_invoices 1) arithmetic_overflow
  modify (save_profile sme (record profile { total_invoices = total }))

-- `(current_stake as u128 * slash_percentage as u128 / 10_000) as i128`, which fits in `i128`.
unfoldable pub slash_amount : ℤ → ℕ → Action RiskRegistry ℤ
slash_amount current_stake slash_percentage s =
    let product = pos_part current_stake * slash_percentage in
    elim (ltb product (2 ^ 128)) [ true ↦ ok (pos (product / 10000), s) | false ↦ panic ]

-- The part of `record_default` that takes a share of a positive stake.
unfoldable pub slash : Address → ℕ → Action RiskRegistry (Unit {0})
slash verifier slash_percentage s =
    let current_stake = get_or (s.verifier_stake verifier) (pos 0) in
    elim (ltb_ℤ (pos 0) current_stake) [
      | true ↦
          (do
            amount ← slash_amount current_stake slash_percentage
            remaining ← ok_or (checked_sub current_stake amount) arithmetic_underflow
            modify (λ s. record s {
              verifier_stake = update s.verifier_stake verifier (some remaining);
            }))
            s
      | false ↦ ok (tt, s)
    ]

-- The writes of `record_default` after the slashing: the verifier's reputation, the profile and the
-- audit log.
unfoldable pub write_default : Env → Address → Address → SmeProfile → Action RiskRegistry (Unit {0})
write_default env admin sme profile = do
  reputation ← gets (λ s. get_or (s.verifier_reputation profile.verifier) 100)
  modify (λ s. record s {
    verifier_reputation = update s.verifier_reputation profile.verifier (some (reputation - 10));
  })
  modify (save_profile sme profile)
  append_audit_entry env admin AdminActionType.record_default

-- The slashing and the writes, for a profile with the default counted.
unfoldable pub apply_default : Env → Address → Address → SmeProfile → Action RiskRegistry (Unit {0})
apply_default env admin sme profile = do
  slash_percentage ← ok_or (← gets (λ s. s.slash_percentage)) not_initialized
  slash profile.verifier slash_percentage
  write_default env admin sme profile

unfoldable pub record_default : Env → Address → Address → Action RiskRegistry (Unit {0})
record_default env admin sme = do
  require_auth env admin
  require_admin admin
  with_guard (do
    profile ← get_sme_profile sme
    defaults ← ok_or (checked_add_u32 profile.defaults 1) arithmetic_overflow
    apply_default env admin sme (record profile { defaults = defaults }))

-- The cooldown of `set_debtor_score`, where this verifier has scored the debtor before.
unfoldable pub require_cooled_down : Env → Address → Bytes → Action RiskRegistry (Unit {0})
require_cooled_down env verifier debtor_hash s =
    elim (s.debtor_score_last_update verifier debtor_hash) [
      | none ↦ ok (tt, s)
      | some last_update ↦
          (do
            next_allowed ←
                ok_or (checked_add_u64 last_update min_score_update_interval) arithmetic_overflow
            reject_if (ltb env.now next_allowed) score_update_cooldown_not_elapsed)
            s
    ]

abbrev pub score_debtor : Address → Bytes → ℕ → ℕ → RiskRegistry → RiskRegistry
score_debtor verifier debtor_hash score now s = record s {
  debtor_score = (λ b. if bytes_eq b debtor_hash then some score else s.debtor_score b);
  debtor_score_last_update =
      update s.debtor_score_last_update verifier
        (λ b. if bytes_eq b debtor_hash then some now else s.debtor_score_last_update verifier b);
}

unfoldable pub set_debtor_score : Env → Address → Bytes → ℕ → Action RiskRegistry (Unit {0})
set_debtor_score env verifier debtor_hash score = do
  require_auth env verifier
  require_verifier verifier
  lift (require_exact_length debtor_hash 32)
  lift (require_valid_risk_score score)
  require_cooled_down env verifier debtor_hash
  modify (score_debtor verifier debtor_hash score env.now)
