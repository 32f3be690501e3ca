-- ===== src/RiskRegistry/Effects.antt =====
-- What the calls of contracts/risk_registry/src/lib.rs do to profiles and to debtor scores.
use stellar_invoice_finance.Prelude.{
  ℕ, ◌+◌, ◌-◌, ◌*◌, ◌/◌, ◌≤◌, ◌≡◌, arith, true, false, some, ℤ, pos, update, Option-some,
  Bool-cases, inl, inr, ltb, get_or, ap, sym, ◌∙◌, ◌-ℤ◌, -ℤ_pos, ◌≢◌, checked_sub, checked-eq_some,
  if◌then◌else◌,
}
use native.Mathlib.Nat.{div-le_of_le-mul, mul-le-mul_left}
use stellar_invoice_finance.Shared.{
  Env, Address, Hash, SmeProfile, ok, Outcome-ok, bind-eq_ok, ok_or, ◌>>=◌, not_initialized,
}
use stellar_invoice_finance.Shared.Token.{Tokens}
use stellar_invoice_finance.Shared.Audit.{AdminActionType, AuditSource}
use stellar_invoice_finance.Shared.Audit.Ring.{append_entry_lem}
use stellar_invoice_finance.RiskRegistry.State.{
  RiskRegistry, append_audit_entry, get_verifier_stake, get_verifier_reputation,
}
use stellar_invoice_finance.RiskRegistry.Admin
use stellar_invoice_finance.RiskRegistry.Profiles

-- What concerns SMEs and debtors stays as it was.
abbrev pub SameScores : RiskRegistry → RiskRegistry → Type 0
SameScores s s' =
    (s'.sme_profile ≡ s.sme_profile)
    × (s'.debtor_score ≡ s.debtor_score)
    × (s'.debtor_score_last_update ≡ s.debtor_score_last_update)

pub transfer_admin-SameScores :
    (env : Env) (a b : Address) (s s' : RiskRegistry)
    → Admin.transfer_admin env a b s ≡ ok (tt, s')
    → SameScores s s'
unfolding Admin.transfer_admin append_audit_entry
transfer_admin-SameScores env a b s s' h =
    let logged =
      append_entry_lem AuditSource.risk_registry env a AdminActionType.registry_transfer_admin
        s.audit in
    (ground (arith, h, logged), ground (arith, h, logged), ground (arith, h, logged))

pub add_verifier-SameScores :
    (env : Env) (tokens : Tokens) (a v : Address) (stake : ℤ) (s s' : RiskRegistry)
    → Admin.add_verifier env tokens a v stake s ≡ ok (tt, s')
    → SameScores s s'
unfolding Admin.add_verifier append_audit_entry
add_verifier-SameScores env tokens a v stake s s' h =
    let logged =
      append_entry_lem AuditSource.risk_registry env a AdminActionType.add_verifier s.audit in
    (ground (arith, h, logged), ground (arith, h, logged), ground (arith, h, logged))

pub remove_verifier-SameScores :
    (env : Env) (tokens : Tokens) (a v : Address) (s s' : RiskRegistry)
    → Admin.remove_verifier env tokens a v s ≡ ok (tt, s')
    → SameScores s s'
unfolding Admin.remove_verifier append_audit_entry Admin.return_stake
remove_verifier-SameScores env tokens a v s s' h =
    let logged =
      append_entry_lem AuditSource.risk_registry env a AdminActionType.remove_verifier s.audit in
    (ground (arith, h, logged), ground (arith, h, logged), ground (arith, h, logged))

pub propose_upgrade-SameScores :
    (env : Env) (a : Address) (x : Hash) (s s' : RiskRegistry)
    → Admin.propose_upgrade env a x s ≡ ok (tt, s')
    → SameScores s s'
unfolding Admin.propose_upgrade append_audit_entry
propose_upgrade-SameScores env a x s s' h =
    let logged =
      append_entry_lem AuditSource.risk_registry env a AdminActionType.registry_propose_upgrade
        s.audit in
    (ground (arith, h, logged), ground (arith, h, logged), ground (arith, h, logged))

pub execute_upgrade-SameScores :
    (env : Env) (a : Address) (s s' : RiskRegistry)
    → Admin.execute_upgrade env a s ≡ ok (tt, s')
    → SameScores s s'
unfolding Admin.execute_upgrade append_audit_entry
execute_upgrade-SameScores env a s s' h =
    let logged =
      append_entry_lem AuditSource.risk_registry env a AdminActionType.registry_execute_upgrade
        s.audit in
    (ground (arith, h, logged), ground (arith, h, logged), ground (arith, h, logged))

-- What the calls about one SME leave of its earlier record.
abbrev pub Follows : SmeProfile → SmeProfile → Type 0
Follows p q =
    (q.address ≡ p.address)
    × (q.verifier ≡ p.verifier)
    × (q.registered_at ≡ p.registered_at)
    × (p.defaults ≤ q.defaults)
    × (p.total_invoices ≤ q.total_invoices)

slash-eq_ok :
    (v : Address) (k n : ℕ) (s s' : RiskRegistry)
    → Profiles.slash v k s ≡ ok (tt, s')
    → get_verifier_stake s v ≡ pos n
    → k ≤ 10000
    → s' ≡ record s {
      verifier_stake =
          if ltb 0 n
          then update s.verifier_stake v (some (pos (n - n * k / 10000)))
          else s.verifier_stake;
    }
unfolding Profiles.slash Profiles.slash_amount
slash-eq_ok v k n s s' h e le = elim (Bool-cases (ltb 0 n)) [
  | inr f ↦ ground (arith, h, e, f)
  | inl f ↦
      let most : n * k / 10000 ≤ n = div-le_of_le-mul 10000 (omega (arith, mul-le-mul_left n le)) in
      let (r, g) =
        Option-some (checked_sub (pos n) (pos (n * k / 10000))) (λ z. ground (arith, h, e, f, z)) in
      let r' =
        sym (checked-eq_some (pos n -ℤ pos (n * k / 10000)) r g) ∙ -ℤ_pos n (n * k / 10000) most in
      ground (arith, h, e, f, g, r')
]

-- What a default leaves after the slashing, but for the audit log and the lock.
abbrev after_default : Address → SmeProfile → RiskRegistry → RiskRegistry → RiskRegistry
after_default sme p t s' = record t {
  lock = s'.lock;
  verifier_reputation =
      update t.verifier_reputation p.verifier
        (some (get_or (t.verifier_reputation p.verifier) 100 - 10));
  sme_profile = update t.sme_profile sme (some p);
  audit = s'.audit;
}

pub write_default-eq_ok :
    (env : Env) (a sme : Address) (p : SmeProfile) (t s' : RiskRegistry)
    → Profiles.write_default env a sme p t ≡ ok (tt, s')
    → s' ≡ after_default sme p t s'
unfolding Profiles.write_default append_audit_entry
write_default-eq_ok env a sme p t s' h =
    let logged =
      append_entry_lem AuditSource.risk_registry env a AdminActionType.record_default t.audit in
    ground (arith, h, logged)

pub apply_default-eq_ok :
    (env : Env) (a sme : Address) (p : SmeProfile) (k : ℕ) (s u : RiskRegistry)
    → Profiles.apply_default env a sme p s ≡ ok (tt, u)
    → s.slash_percentage ≡ some k
    → (t : RiskRegistry) × (Profiles.slash p.verifier k s ≡ ok (tt, t))
      × (Profiles.write_default env a sme p t ≡ ok (tt, u))
unfolding Profiles.apply_default
apply_default-eq_ok env a sme p k s u h f =
    let h' : (Profiles.slash p.verifier k >>= λ _. Profiles.write_default env a sme p) s
        ≡ ok (tt, u) =
      ap
        (λ o.
          (ok_or o not_initialized >>= λ k.
          (Profiles.slash p.verifier k >>= λ _. Profiles.write_default env a sme p))
            s)
        (sym f)
      ∙ h in
    let (x, t, g, i) =
      bind-eq_ok (Profiles.slash p.verifier k) (λ _. Profiles.write_default env a sme p) s (tt, u)
        h' in
    (t, g, i)

pub record_default-eq_ok :
    (env : Env) (a sme : Address) (p : SmeProfile) (s s' : RiskRegistry)
    → Profiles.record_default env a sme s ≡ ok (tt, s')
    → s.sme_profile sme ≡ some p
    → (u : RiskRegistry) × (Profiles.apply_default env a sme
          (record p { defaults = p.defaults + 1 })
          (record s { lock = true })
        ≡ ok (tt, u))
      × (s' ≡ record u { lock = false })
unfolding Profiles.record_default
record_default-eq_ok env a sme p s s' h e =
    let ((x, u), g) =
      Outcome-ok
        (Profiles.apply_default env a sme (record p { defaults = p.defaults + 1 })
          (record s { lock = true }))
        (λ x z. ground (arith, h, e, z)) (λ z. ground (arith, h, e, z)) in
    (u, g, ground (arith, h, e, g))

-- A default that is recorded against an SME, where the slashing percentage is at most 10000 basis
-- points and the verifier's stake is `n`, adds one to the SME's defaults, and takes the percentage of
-- the stake, rounded down, and 10 points of reputation, down to 0, from the SME's verifier; the other
-- verifiers' stakes and reputations and the other SMEs' profiles stay.
pub record_default_slashes :
    (env : Env) (a sme other v : Address) (p : SmeProfile) (k n : ℕ) (s s' : RiskRegistry)
    → Profiles.record_default env a sme s ≡ ok (tt, s')
    → s.sme_profile sme ≡ some p
    → s.slash_percentage ≡ some k
    → k ≤ 10000
    → get_verifier_stake s p.verifier ≡ pos n
    → other ≢ sme
    → v ≢ p.verifier
    → (s'.sme_profile sme ≡ some (record p { defaults = p.defaults + 1 }))
      × (get_verifier_stake s' p.verifier ≡ pos (n - n * k / 10000))
      × (n - n * k / 10000 ≤ n)
      × (get_verifier_reputation s' p.verifier ≡ get_or (s.verifier_reputation p.verifier) 100 - 10)
      × (s'.sme_profile other ≡ s.sme_profile other)
      × (get_verifier_stake s' v ≡ get_verifier_stake s v)
      × (get_verifier_reputation s' v ≡ get_verifier_reputation s v)
record_default_slashes env a sme other v p k n s s' h e f le st ne away =
    let (u, w, e') = record_default-eq_ok env a sme p s s' h e in
    let (t, g, i) =
      apply_default-eq_ok env a sme (record p { defaults = p.defaults + 1 }) k
        (record s { lock = true }) u w f in
    let u' = write_default-eq_ok env a sme (record p { defaults = p.defaults + 1 }) t u i in
    let profiles = ap (λ s. s.sme_profile) e' ∙ ap (λ s. s.sme_profile) u' in
    let stakes = ap (λ s. s.verifier_stake) e' ∙ ap (λ s. s.verifier_stake) u' in
    let reputations = ap (λ s. s.verifier_reputation) e' ∙ ap (λ s. s.verifier_reputation) u' in
    let t' = slash-eq_ok p.verifier k n (record s { lock = true }) t g st le in
    let same : t.sme_profile ≡ s.sme_profile = ap (λ t. t.sme_profile) t' in
    let same_reputation : t.verifier_reputation ≡ s.verifier_reputation =
      ap (λ t. t.verifier_reputation) t' in
    (
      ap (λ f. f sme) profiles ∙ ground arith,
      ap (λ f. get_or (f p.verifier) (pos 0)) (stakes ∙ ap (λ t. t.verifier_stake) t')
          ∙ ground (arith, st),
      omega arith,
      ap (λ f. get_or (f p.verifier) 0) reputations
          ∙ ap
              (λ r.
                get_or (update r p.verifier (some (get_or (r p.verifier) 100 - 10)) p.verifier) 0)
              same_reputation
          ∙ ground arith,
      ap (λ f. f other) profiles
          ∙ ap (λ r. update r sme (some (record p { defaults = p.defaults + 1 })) other) same
          ∙ ground (arith, ne),
      ap (λ f. get_or (f v) (pos 0)) (stakes ∙ ap (λ t. t.verifier_stake) t')
          ∙ ground (arith, away),
      ap (λ f. get_or (f v) 0) reputations
          ∙ ap (λ r. get_or (update r p.verifier (some (get_or (r p.verifier) 100 - 10)) v) 0)
              same_reputation
          ∙ ground (arith, away),
    )
