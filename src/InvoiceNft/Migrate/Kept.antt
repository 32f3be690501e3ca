-- ===== src/InvoiceNft/Migrate/Kept.antt =====
-- contracts/invoice_nft/src/lib.rs: what a call of `migrate` can do to the record of one invoice.
use stellar_invoice_finance.Prelude.{
  ℕ, zero, suc, ◌+◌, ◌-◌, ◌≡◌, ◌⊎◌, Option, none, some, arith, refl, ltb, get_or, Bool-cases, inl,
  inr, ◌∙◌, ◌==◌, if◌then◌else◌,
}
use stellar_invoice_finance.Shared.{Env, Address, Outcome, ok, Invoice, Outcome-ok, Outcome-cases}
use stellar_invoice_finance.InvoiceNft.State.{
  InvoiceNft, InvoiceV1, Stored, current, old, save_invoice, next_id,
}
use stellar_invoice_finance.InvoiceNft.Migrate.{upgraded, migrate_one, migrate_from, migrate}

-- The record is kept, or it was of the old schema and is the same invoice in the new one.
abbrev pub KeptOrRenewed : Option Stored → Option Stored → Type 0
KeptOrRenewed o o' =
    (o' ≡ o) ⊎ ((v : InvoiceV1) × (o ≡ some (old v)) × (o' ≡ some (current (upgraded v))))

pub record Renews (s s' : InvoiceNft) : Type 0 where
  pub each : (n : ℕ) → KeptOrRenewed (s.invoice n) (s'.invoice n)
  pub ids : next_id s' ≡ next_id s
  pub exposure : s'.outstanding_exposure ≡ s.outstanding_exposure

KeptOrRenewed-trans :
    (o p q : Option Stored) → KeptOrRenewed o p → KeptOrRenewed p q → KeptOrRenewed o q
KeptOrRenewed-trans o p q (inl e) (inl f) = inl (f ∙ e)
KeptOrRenewed-trans o p q (inl e) (inr (v, f, g)) = inr (v, ground (arith, e, f), g)
KeptOrRenewed-trans o p q (inr (v, e, e')) (inl f) = inr (v, e, f ∙ e')
KeptOrRenewed-trans o p q (inr (v, e, e')) (inr (w, f, g)) = absurd (ground (arith, e', f))

Renews-trans : (s t u : InvoiceNft) → Renews s t → Renews t u → Renews s u
Renews-trans s t u a b = record {
  each = λ n. KeptOrRenewed-trans (s.invoice n) (t.invoice n) (u.invoice n) (a.each n) (b.each n);
  ids = b.ids ∙ a.ids;
  exposure = b.exposure ∙ a.exposure;
}

Renews-eq : (s s' : InvoiceNft) → s' ≡ s → Renews s s'
Renews-eq s s' e = rw e (record { each = λ n. inl refl; ids = refl; exposure = refl })

save-Renews :
    (id : ℕ) (v : InvoiceV1) (s : InvoiceNft)
    → s.invoice id ≡ some (old v)
    → Renews s (save_invoice id (upgraded v) s)
save-Renews id v s e = record {
  each = λ n. elim (Bool-cases (n == id)) [
    | inl b ↦ let same : n ≡ id = ground (arith, b) in rw (b, same) (inr (v, e, refl))
    | inr b ↦ rw b (inl refl)
  ];
  ids = refl;
  exposure = refl;
}

module _ (decode : Invoice → Outcome (Option InvoiceV1))
    (not_v1 : (i : Invoice) (v : InvoiceV1) → decode i ≡ ok (some v) → ⊥) where
  migrate_one-cases :
      (id : ℕ) (s s' : InvoiceNft) (o : Option Stored)
      → s.invoice id ≡ o
      → migrate_one decode id s ≡ ok (tt, s')
      → Renews s s'
  unfolding migrate_one
  migrate_one-cases id s s' none e h = Renews-eq s s' (ground (arith, h, e))
  migrate_one-cases id s s' (some (old v)) e h =
      let s'' : s' ≡ save_invoice id (upgraded v) s = ground (arith, h, e) in
      rw s'' (save-Renews id v s e)
  migrate_one-cases id s s' (some (current i)) e h = elim (Outcome-cases (decode i)) [
    | inl (none, f) ↦ Renews-eq s s' (ground (arith, h, e, f))
    | inl (some v, f) ↦ absurd (not_v1 i v f)
    | inr (inl (x, f)) ↦ absurd (ground (arith, h, e, f))
    | inr (inr f) ↦ absurd (ground (arith, h, e, f))
  ]

  migrate_from-Renews :
      (id rounds : ℕ) (s s' : InvoiceNft)
      → migrate_from decode id rounds s ≡ ok (tt, s')
      → Renews s s'
  unfolding migrate_from
  migrate_from-Renews id zero s s' h = Renews-eq s s' (ground (arith, h))
  migrate_from-Renews id (suc rounds) s s' h =
      let ((x, t), e) =
        Outcome-ok (migrate_one decode id s) (λ x z. ground (arith, h, z))
          (λ z. ground (arith, h, z)) in
      let rest : migrate_from decode (id + 1) rounds t ≡ ok (tt, s') = ground (arith, h, e) in
      Renews-trans s t s' (migrate_one-cases id s t (s.invoice id) refl e)
        (migrate_from-Renews (id + 1) rounds t s' rest)

  bumped-Renews :
      (s : InvoiceNft)
      → Renews s (
          if ltb (get_or s.migration_version 0) 1
          then record s { migration_version = some 1 }
          else s)
  bumped-Renews s = elim (Bool-cases (ltb (get_or s.migration_version 0) 1)) [
    | inl e ↦ rw e (record { each = λ n. inl refl; ids = refl; exposure = refl })
    | inr e ↦ rw e (record { each = λ n. inl refl; ids = refl; exposure = refl })
  ]

  pub migrate-Renews :
      (env : Env) (a : Address) (s s' : InvoiceNft)
      → migrate decode env a s ≡ ok (tt, s')
      → Renews s s'
  unfolding migrate
  migrate-Renews env a s s' h =
      let t : InvoiceNft =
        if ltb (get_or s.migration_version 0) 1
        then record s { migration_version = some 1 }
        else s in
      elim (Bool-cases (ltb (get_or s.migration_version 0) 2)) [
        | inr e ↦
            let s'' : s' ≡ t = ground (arith, h, e) in
            Renews-trans s t s' (bumped-Renews s) (Renews-eq t s' s'')
        | inl e ↦
            let ((x, u), f) =
              Outcome-ok (migrate_from decode 1 (next_id t - 1) t) (λ x z. ground (arith, h, e, z))
                (λ z. ground (arith, h, e, z)) in
            let s'' : s' ≡ record u { migration_version = some 2 } = ground (arith, h, e, f) in
            let r =
              Renews-trans s t u (bumped-Renews s) (migrate_from-Renews 1 (next_id t - 1) t u f) in
            rw s'' (record { each = r.each; ids = r.ids; exposure = r.exposure })
      ]
