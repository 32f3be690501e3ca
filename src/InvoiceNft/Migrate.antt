-- ===== src/InvoiceNft/Migrate.antt =====
-- contracts/invoice_nft/src/lib.rs: `migrate`. What the host's decoder makes of a record of the new
-- schema that is read as `InvoiceV1` is not in the source: it is the parameter `decode`.
pub mod Upgrade
pub mod Kept
use stellar_invoice_finance.Prelude.{
  ℕ, zero, suc, ◌+◌, ◌-◌, Bool, true, false, Option, none, some, List, [], ltb, ◌==◌, if◌then◌else◌,
  update, get_or,
}
use stellar_invoice_finance.Shared.{
  Env, Address, Outcome, ok, err, panic, Action, ◌>>=◌, ◌>>◌, pure, gets, modify, require_auth,
  Invoice,
}
use stellar_invoice_finance.InvoiceNft.State.{
  InvoiceNft, InvoiceV1, Stored, current, old, save_invoice, require_admin, next_id,
}

unfoldable pub upgraded : InvoiceV1 → Invoice
upgraded v = record {
  id = v.id;
  sme = v.sme;
  debtor_hash = v.debtor_hash;
  amount = v.amount;
  currency = v.currency;
  due_date = v.due_date;
  ipfs_cid = v.ipfs_cid;
  metadata_hash = [];
  risk_score = v.risk_score;
  risk_tier = v.risk_tier;
  status = v.status;
  created_at = v.created_at;
  funded_at = v.funded_at;
  repaid_at = v.repaid_at;
  notes = none;
}

abbrev pub read_v1 :
    (Invoice → Outcome (Option InvoiceV1)) → Option Stored → Outcome (Option InvoiceV1)
read_v1 decode none = ok none
read_v1 decode (some (old v)) = ok (some v)
read_v1 decode (some (current i)) = decode i

-- The body of the loop, for one id.
unfoldable pub migrate_one :
    (Invoice → Outcome (Option InvoiceV1)) → ℕ → Action InvoiceNft (Unit {0})
migrate_one decode id s = elim (read_v1 decode (s.invoice id)) [
  | ok found ↦ elim found [ none ↦ ok (tt, s) | some v ↦ ok (tt, save_invoice id (upgraded v) s) ]
  | err e ↦ err e
  | panic ↦ panic
]

-- `while id < next_id`, on the rounds that are left.
unfoldable pub migrate_from :
    (Invoice → Outcome (Option InvoiceV1)) → ℕ → ℕ → Action InvoiceNft (Unit {0})
migrate_from decode id zero s = ok (tt, s)
migrate_from decode id (suc rounds) s = elim (migrate_one decode id s) [
  | ok (u, s') ↦ migrate_from decode (id + 1) rounds s'
  | err e ↦ err e
  | panic ↦ panic
]

unfoldable pub migrate :
    (Invoice → Outcome (Option InvoiceV1)) → Env → Address → Action InvoiceNft (Unit {0})
migrate decode env admin = do
  require_auth env admin
  require_admin admin
  current_version ← gets (λ s. get_or s.migration_version 0)
  modify {S = InvoiceNft}
      (λ s. if ltb current_version 1 then record s { migration_version = some 1 } else s)
  λ s. elim (ltb current_version 2) [
    | true ↦
        (migrate_from decode 1 (next_id s - 1)
            >> modify {S = InvoiceNft} (λ t. record t { migration_version = some 2 }))
          s
    | false ↦ ok (tt, s)
  ]
