-- ===== src/InvoiceNft/Migrate/Upgrade.antt =====
-- contracts/invoice_nft/src/lib.rs: `migrate` rewrites every old record, and only those.
use stellar_invoice_finance.Prelude.{
  ℕ, zero, suc, ◌+◌, ◌-◌, ◌≡◌, ◌<◌, ◌≤◌, true, ◌&&◌, Option, none, some, arith, ltb, leb, ◌==◌,
  if◌then◌else◌, get_or, refl, ap, ◌∙◌,
}
use stellar_invoice_finance.Shared.{Env, Address, Outcome, ok, Invoice}
use stellar_invoice_finance.InvoiceNft.State.{
  InvoiceNft, InvoiceV1, Stored, current, old, save_invoice, next_id,
}
use stellar_invoice_finance.InvoiceNft.Migrate.{upgraded, migrate_one, migrate_from, migrate}

abbrev pub renewed : Option Stored → Option Stored
renewed none = none
renewed (some (current i)) = some (current i)
renewed (some (old v)) = some (current (upgraded v))

range :
    (n : ℕ) (s : InvoiceNft)
    → (if leb 1 n && ltb n (1 + (next_id s - 1)) then renewed (s.invoice n) else s.invoice n)
      ≡ (if leb 1 n && ltb n (next_id s) then renewed (s.invoice n) else s.invoice n)
range n s = ground arith

-- A slot without a record of the new schema.
abbrev pub IsAged : Option Stored → Type 0
IsAged none = Unit
IsAged (some (current i)) = ⊥
IsAged (some (old v)) = Unit

module _ (decode : Invoice → Outcome (Option InvoiceV1)) where
  one_renews :
      (id : ℕ) (s : InvoiceNft) (o : Option Stored)
      → s.invoice id ≡ o
      → IsAged o
      → (s' : InvoiceNft) × (migrate_one decode id s ≡ ok (tt, s'))
        × ((n : ℕ) → s'.invoice n ≡ (if n == id then renewed (s.invoice n) else s.invoice n))
        × (s'.admin ≡ s.admin)
        × (next_id s' ≡ next_id s)
  unfolding migrate_one
  one_renews id s none e g = (s, rw (e, migrate_one), (λ n. ground arith), refl, refl)
  one_renews id s (some (current i)) e g = absurd g
  one_renews id s (some (old v)) e g =
      (save_invoice id (upgraded v) s, ground arith, (λ n. ground arith), refl, refl)

  stays-IsAged :
      (id rounds : ℕ) (s t : InvoiceNft)
      → ((m : ℕ) → id ≤ m → m < id + suc rounds → IsAged (s.invoice m))
      → ((n : ℕ) → t.invoice n ≡ (if n == id then renewed (s.invoice n) else s.invoice n))
      → (m : ℕ) → id + 1 ≤ m
      → m < id + 1 + rounds
      → IsAged (t.invoice m)
  stays-IsAged id rounds s t aged each m k l =
      let same : t.invoice m ≡ s.invoice m = ground (arith, each m, k) in
      rw same (aged m (omega (arith, k)) (omega (arith, l)))

  from_renews :
      (id rounds : ℕ) (s : InvoiceNft)
      → ((m : ℕ) → id ≤ m → m < id + rounds → IsAged (s.invoice m))
      → (s' : InvoiceNft) × (migrate_from decode id rounds s ≡ ok (tt, s'))
        × ((n : ℕ)
            → s'.invoice n
              ≡ (if leb id n && ltb n (id + rounds) then renewed (s.invoice n) else s.invoice n))
        × (s'.admin ≡ s.admin)
        × (next_id s' ≡ next_id s)
  unfolding migrate_from
  from_renews id zero s aged = (s, refl, (λ n. ground arith), refl, refl)
  from_renews id (suc rounds) s aged =
      let (t, e, each, a, k) =
        one_renews id s (s.invoice id) refl (aged id (omega arith) (omega arith)) in
      let (u, e', each', a', k') =
        from_renews (id + 1) rounds t (stays-IsAged id rounds s t aged each) in
      (u, rw (e, migrate_from) e', (λ n. ground (arith, each n, each' n)), a' ∙ a, k' ∙ k)

  bumped : InvoiceNft → InvoiceNft
  bumped s =
      if ltb (get_or s.migration_version 0) 1 then record s { migration_version = some 1 } else s

  bumped_lem :
      (s : InvoiceNft)
      → ((bumped s).invoice ≡ s.invoice)
        × (next_id (bumped s) ≡ next_id s)
        × ((bumped s).admin ≡ s.admin)
  unfolding bumped
  bumped_lem s = ground arith

  migrate_runs :
      (env : Env) (a : Address) (s u : InvoiceNft)
      → env.auth a ≡ true
      → s.admin ≡ some a
      → get_or s.migration_version 0 < 2
      → migrate_from decode 1 (next_id s - 1) (bumped s) ≡ ok (tt, u)
      → migrate decode env a s ≡ ok (tt, record u { migration_version = some 2 })
  unfolding migrate bumped
  migrate_runs env a s u auth admin old_version h = ground arith

  migrate_rests :
      (env : Env) (a : Address) (s : InvoiceNft)
      → env.auth a ≡ true
      → s.admin ≡ some a
      → s.migration_version ≡ some 2
      → migrate decode env a s ≡ ok (tt, s)
  unfolding migrate
  migrate_rests env a s auth admin version = ground arith

  -- `migrate`, signed by the admin on a contract of a schema version below 2 before any record of
  -- the new schema is written, succeeds: each record of the old schema with an id from 1 to below the
  -- next id becomes the same invoice in the new schema, with no notes and no metadata hash, all other
  -- slots stay, and the version is 2; after that `migrate` by the admin changes nothing.
  pub migrate_renews :
      (env env' : Env) (a : Address) (n : ℕ) (s : InvoiceNft)
      → env.auth a ≡ true
      → env'.auth a ≡ true
      → s.admin ≡ some a
      → get_or s.migration_version 0 < 2
      → ((m : ℕ) → 1 ≤ m → m < next_id s → IsAged (s.invoice m))
      → (s' : InvoiceNft) × (migrate decode env a s ≡ ok (tt, s'))
        × (s'.invoice n
            ≡ (if leb 1 n && ltb n (next_id s) then renewed (s.invoice n) else s.invoice n))
        × (s'.migration_version ≡ some 2)
        × (migrate decode env' a s' ≡ ok (tt, s'))
  migrate_renews env env' a n s auth auth' admin old_version aged =
      let (same, ids, boss) = bumped_lem s in
      let (u, e, each, a', k) =
        from_renews 1 (next_id s - 1) (bumped s)
          (λ m k l. rw (ap {B = Option Stored} (λ f. f m) same) (aged m k (omega (arith, k, l)))) in
      let done : InvoiceNft = record u { migration_version = some 2 } in
      (
        done,
        migrate_runs env a s u auth admin old_version e,
        ground (arith, each n, range n s, ap {B = Option Stored} (λ f. f n) same),
        refl,
        migrate_rests env' a done auth' (a' ∙ boss ∙ admin) refl,
      )
