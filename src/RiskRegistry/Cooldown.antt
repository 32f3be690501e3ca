-- ===== src/RiskRegistry/Cooldown.antt =====
-- The cooldown of debtor scores in contracts/risk_registry/src/lib.rs, over any sequence of calls.
use stellar_invoice_finance.Prelude.{
  ℕ, ◌+◌, ◌≤◌, ◌≡◌, refl, arith, true, Bool, some, ℤ, [], ◌∷◌, ◌==◌, Option-some, Option-cases,
  Bool-cases, inl, inr, ap, sym, ◌∙◌,
}
use stellar_invoice_finance.Shared.{Env, Address, Bytes, bytes_eq, SmeProfile, ok}
use stellar_invoice_finance.RiskRegistry.State.{RiskRegistry}
use stellar_invoice_finance.RiskRegistry.Profiles
use stellar_invoice_finance.RiskRegistry.Effects
use stellar_invoice_finance.RiskRegistry.Steps.{Step, Reach, here, next}

bytes_eq_refl : (b : Bytes) → bytes_eq b b ≡ true
bytes_eq_refl [] = refl
bytes_eq_refl (x ∷ xs) = ground (arith, bytes_eq_refl xs)

bytes_eq→eq : (b c : Bytes) → bytes_eq b c ≡ true → b ≡ c
bytes_eq→eq [] [] h = refl
bytes_eq→eq [] (y ∷ ys) h = absurd (ground arith)
bytes_eq→eq (x ∷ xs) [] h = absurd (ground arith)
bytes_eq→eq (x ∷ xs) (y ∷ ys) h =
    let same : x ≡ y = ground (arith, h) in
    let rest = bytes_eq→eq xs ys (ground (arith, h)) in ground (same, rest, arith)

abbrev SameTimes : RiskRegistry → RiskRegistry → Type 0
SameTimes s s' = s'.debtor_score_last_update ≡ s.debtor_score_last_update

register_sme-SameTimes :
    (env : Env) (v sme : Address) (score : ℕ) (b : Bool) (s s' : RiskRegistry)
    → Profiles.register_sme env v sme score b s ≡ ok (tt, s')
    → SameTimes s s'
unfolding Profiles.register_sme
register_sme-SameTimes env v sme score b s s' h = ground (arith, h)

update_sme_score-SameTimes :
    (env : Env) (v sme : Address) (score : ℕ) (s s' : RiskRegistry)
    → Profiles.update_sme_score env v sme score s ≡ ok (tt, s')
    → SameTimes s s'
unfolding Profiles.update_sme_score
update_sme_score-SameTimes env v sme score s s' h =
    let (p, e) = Option-some (s.sme_profile sme) (λ z. ground (arith, h, z)) in ground (arith, h, e)

set_credit_limit-SameTimes :
    (env : Env) (v sme : Address) (limit : ℤ) (s s' : RiskRegistry)
    → Profiles.set_credit_limit env v sme limit s ≡ ok (tt, s')
    → SameTimes s s'
unfolding Profiles.set_credit_limit
set_credit_limit-SameTimes env v sme limit s s' h =
    let (p, e) = Option-some (s.sme_profile sme) (λ z. ground (arith, h, z)) in ground (arith, h, e)

increment_invoice_count-SameTimes :
    (env : Env) (a sme : Address) (s s' : RiskRegistry)
    → Profiles.increment_invoice_count env a sme s ≡ ok (tt, s')
    → SameTimes s s'
unfolding Profiles.increment_invoice_count
increment_invoice_count-SameTimes env a sme s s' h =
    let (p, e) = Option-some (s.sme_profile sme) (λ z. ground (arith, h, z)) in ground (arith, h, e)

-- When a score was set, and that the cooldown of an earlier one was over.
set_debtor_score-eq_ok :
    (env : Env) (v : Address) (debtor : Bytes) (score : ℕ) (s s' : RiskRegistry)
    → Profiles.set_debtor_score env v debtor score s ≡ ok (tt, s')
    → s' ≡ Profiles.score_debtor v debtor score env.now s
unfolding Profiles.set_debtor_score Profiles.require_cooled_down
set_debtor_score-eq_ok env v debtor score s s' h =
    elim (Option-cases (s.debtor_score_last_update v debtor)) [
      | inl e ↦ ground (arith, h, e)
      | inr (t, e) ↦ ground (arith, h, e)
    ]

set_debtor_score-le :
    (env : Env) (v : Address) (debtor : Bytes) (score t : ℕ) (s s' : RiskRegistry)
    → Profiles.set_debtor_score env v debtor score s ≡ ok (tt, s')
    → s.debtor_score_last_update v debtor ≡ some t
    → t + 3600 ≤ env.now
unfolding Profiles.set_debtor_score Profiles.require_cooled_down
set_debtor_score-le env v debtor score t s s' h e = ground (arith, h, e)

slash-SameTimes :
    (v : Address) (k : ℕ) (s t : RiskRegistry) → Profiles.slash v k s ≡ ok (tt, t) → SameTimes s t
unfolding Profiles.slash Profiles.slash_amount
slash-SameTimes v k s t h = ground (arith, h)

registered :
    (env : Env) (a sme : Address) (s s' : RiskRegistry)
    → Profiles.record_default env a sme s ≡ ok (tt, s')
    → (p : SmeProfile) × (s.sme_profile sme ≡ some p)
unfolding Profiles.record_default
registered env a sme s s' h = Option-some (s.sme_profile sme) (λ z. ground (arith, h, z))

slashed :
    (env : Env) (a sme : Address) (p : SmeProfile) (s s' : RiskRegistry)
    → Profiles.apply_default env a sme p s ≡ ok (tt, s')
    → (k : ℕ) × (s.slash_percentage ≡ some k)
unfolding Profiles.apply_default
slashed env a sme p s s' h = Option-some s.slash_percentage (λ z. ground (arith, h, z))

record_default-SameTimes :
    (env : Env) (a sme : Address) (s s' : RiskRegistry)
    → Profiles.record_default env a sme s ≡ ok (tt, s')
    → SameTimes s s'
record_default-SameTimes env a sme s s' h =
    let (p, e) = registered env a sme s s' h in
    let (u, w, e') = Effects.record_default-eq_ok env a sme p s s' h e in
    let q : SmeProfile = record p { defaults = p.defaults + 1 } in
    let locked : RiskRegistry = record s { lock = true } in
    let (k, f) = slashed env a sme q locked u w in
    let (t, g, i) = Effects.apply_default-eq_ok env a sme q k locked u w f in
    ap (λ s. s.debtor_score_last_update) e'
    ∙ ap (λ s. s.debtor_score_last_update) (Effects.write_default-eq_ok env a sme q t u i)
    ∙ slash-SameTimes p.verifier k locked t g

scored :
    (v : Address) (debtor : Bytes) (t : ℕ) (env : Env) (w : Address) (other : Bytes) (n : ℕ)
    (s s' : RiskRegistry)
    → s.debtor_score_last_update v debtor ≡ some t
    → Profiles.set_debtor_score env w other n s ≡ ok (tt, s')
    → (u : ℕ) × (t ≤ u) × (s'.debtor_score_last_update v debtor ≡ some u)
scored v debtor t env w other n s s' e h =
    let at =
      ap (λ s. s.debtor_score_last_update v debtor) (set_debtor_score-eq_ok env w other n s s' h) in
    elim (Bool-cases (v == w)) [
      | inr f ↦ (t, omega arith, at ∙ ground (arith, e, f))
      | inl f ↦ elim (Bool-cases (bytes_eq debtor other)) [
        | inr g ↦ (t, omega arith, at ∙ ground (arith, e, f, g))
        | inl g ↦
            let same = bytes_eq→eq debtor other g in
            let its : v ≡ w = ground (arith, f) in
            let then_at : s.debtor_score_last_update w other ≡ some t =
              ap (λ w. s.debtor_score_last_update w other) (sym its)
              ∙ ap (s.debtor_score_last_update v) (sym same)
              ∙ e in
            let late = set_debtor_score-le env w other n t s s' h then_at in
            (env.now, omega (arith, late), at ∙ ground (arith, f, g))
      ]
    ]

-- The time of a score stays or moves on to a later one.
Step-time :
    {s s' : RiskRegistry} (v : Address) (debtor : Bytes) (t : ℕ)
    → Step s s'
    → s.debtor_score_last_update v debtor ≡ some t
    → (u : ℕ) × (t ≤ u) × (s'.debtor_score_last_update v debtor ≡ some u)
Step-time {s} {s'} v debtor t st e = elim st [
  | Step.transfer_admin env a b h ↦ kept (Effects.transfer_admin-SameScores env a b s s' h).2
  | Step.add_verifier env tk a w stake h ↦
      kept (Effects.add_verifier-SameScores env tk a w stake s s' h).2
  | Step.remove_verifier env tk a w h ↦
      kept (Effects.remove_verifier-SameScores env tk a w s s' h).2
  | Step.propose_upgrade env a x h ↦ kept (Effects.propose_upgrade-SameScores env a x s s' h).2
  | Step.execute_upgrade env a h ↦ kept (Effects.execute_upgrade-SameScores env a s s' h).2
  | Step.register_sme env w sme n b h ↦ kept (register_sme-SameTimes env w sme n b s s' h)
  | Step.update_sme_score env w sme n h ↦ kept (update_sme_score-SameTimes env w sme n s s' h)
  | Step.set_credit_limit env w sme n h ↦ kept (set_credit_limit-SameTimes env w sme n s s' h)
  | Step.increment_invoice_count env a sme h ↦
      kept (increment_invoice_count-SameTimes env a sme s s' h)
  | Step.record_default env a sme h ↦ kept (record_default-SameTimes env a sme s s' h)
  | Step.set_debtor_score env w other n h ↦ scored v debtor t env w other n s s' e h
]
  where
    kept : SameTimes s s' → (u : ℕ) × (t ≤ u) × (s'.debtor_score_last_update v debtor ≡ some u)
    kept same = (t, omega arith, ap (λ f. f v debtor) same ∙ e)

Reach-time :
    {s s' : RiskRegistry} (v : Address) (debtor : Bytes) (t : ℕ)
    → Reach s s'
    → s.debtor_score_last_update v debtor ≡ some t
    → (u : ℕ) × (t ≤ u) × (s'.debtor_score_last_update v debtor ≡ some u)
Reach-time v debtor t here e = (t, omega arith, e)
Reach-time v debtor t (next r st) e =
    let (u, k, f) = Reach-time v debtor t r e in
    let (x, l, g) = Step-time v debtor u st f in (x, omega arith, g)

-- A verifier sets a debtor's score at most once in 3600 seconds: when one call of `set_debtor_score`
-- has succeeded, a later one by the same verifier for the same debtor, whatever calls came between,
-- succeeds only at a time that is at least 3600 seconds after.
pub set_debtor_score_cools_down :
    (env env' : Env) (v : Address) (debtor : Bytes) (score score' : ℕ) (s s1 s2 s3 : RiskRegistry)
    → Profiles.set_debtor_score env v debtor score s ≡ ok (tt, s1)
    → Reach s1 s2
    → Profiles.set_debtor_score env' v debtor score' s2 ≡ ok (tt, s3)
    → env.now + 3600 ≤ env'.now
set_debtor_score_cools_down env env' v debtor score score' s s1 s2 s3 h r h' =
    let e : s1.debtor_score_last_update v debtor ≡ some env.now =
      ap (λ s. s.debtor_score_last_update v debtor)
        (set_debtor_score-eq_ok env v debtor score s s1 h)
      ∙ ground (arith, bytes_eq_refl debtor) in
    let (t, k, f) = Reach-time v debtor env.now r e in
    omega (arith, k, set_debtor_score-le env' v debtor score' t s2 s3 h' f)
