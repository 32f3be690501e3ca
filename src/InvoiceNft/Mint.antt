-- ===== src/InvoiceNft/Mint.antt =====
-- contracts/invoice_nft/src/lib.rs: what the SME does with an invoice before it is listed.
use stellar_invoice_finance.Prelude.{
  ℕ, not, Option, none, some, ℤ, pos, [], ◌==◌, if◌then◌else◌, ltb_ℤ, checked_add, update, get_or,
  length,
}
use stellar_invoice_finance.Shared.{
  Env, Address, Symbol, Bytes, ok, err, Action, ◌>>=◌, ◌>>◌, pure, gets, ok_or, lift, reject_if,
  modify, require_auth, checked_add_u64, Invoice, InvoiceStatus, status_eq, from_score,
  arithmetic_overflow, credit_limit_exceeded, invalid_invoice_status, not_invoice_owner,
  unauthorized, already_initialized,
}
use stellar_invoice_finance.Shared.Validation.{
  require_non_zero_amount, require_future_timestamp, require_valid_risk_score,
  require_non_empty_bytes, require_max_length_bytes, require_non_empty_string,
  require_max_length_string, max_debtor_hash_len, max_ipfs_cid_len,
}
use stellar_invoice_finance.AccessControl.State.{AccessControl}
use stellar_invoice_finance.RiskRegistry.State.{RiskRegistry}
use stellar_invoice_finance.InvoiceNft.State.{
  InvoiceNft, with_guard, load_invoice, save_invoice, require_not_paused, release_exposure, next_id,
}

-- The credit limit of the SME, where a registry is wired up and the SME has a profile there; `rr` is
-- the state of the registry. `Ok` of `try_get_sme_profile` is `some`.
abbrev pub check_credit : RiskRegistry → Address → ℤ → Action InvoiceNft (Unit {0})
check_credit rr sme amount s = elim s.risk_registry [
  | none ↦ ok (tt, s)
  | some rr_addr ↦ elim (rr.sme_profile sme) [
    | none ↦ ok (tt, s)
    | some profile ↦
        if ltb_ℤ (pos 0) profile.credit_limit
        then elim (checked_add (get_or (s.outstanding_exposure sme) (pos 0)) amount) [
          | none ↦ err arithmetic_overflow
          | some new_exposure ↦
              if ltb_ℤ profile.credit_limit new_exposure
              then err credit_limit_exceeded
              else ok (tt, s)
        ]
        else ok (tt, s)
  ]
]

unfoldable pub mint_invoice :
    Env
    → AccessControl
    → RiskRegistry
    → Address
    → Bytes
    → ℤ
    → Symbol
    → ℕ
    → Bytes
    → ℕ
    → Option Bytes
    → Action InvoiceNft ℕ
mint_invoice env ac rr sme debtor_hash amount currency due_date ipfs_cid risk_score notes = do
  require_auth env sme
  require_not_paused ac
  with_guard (do
    lift (require_non_zero_amount amount)
    lift (require_future_timestamp env due_date)
    lift (require_valid_risk_score risk_score)
    lift (require_non_empty_bytes debtor_hash)
    lift (require_max_length_bytes debtor_hash max_debtor_hash_len)
    lift (require_non_empty_string ipfs_cid)
    lift (require_max_length_string ipfs_cid max_ipfs_cid_len)
    check_credit rr sme amount
    id ← gets next_id
    let invoice : Invoice = record {
      id = id;
      sme = sme;
      debtor_hash = debtor_hash;
      amount = amount;
      currency = currency;
      due_date = due_date;
      ipfs_cid = ipfs_cid;
      metadata_hash = [];
      risk_score = risk_score;
      risk_tier = from_score risk_score;
      status = InvoiceStatus.created;
      created_at = env.now;
      funded_at = none;
      repaid_at = none;
      notes = notes;
    }
    modify (save_invoice id invoice)
    next ← ok_or (checked_add_u64 id 1) arithmetic_overflow
    modify (λ s. record s { next_invoice_id = some next })
    pure id)

unfoldable pub amend_invoice :
    Env → AccessControl → Address → ℕ → Bytes → ℤ → ℕ → Bytes → ℕ → Action InvoiceNft (Unit {0})
amend_invoice env ac sme invoice_id debtor_hash amount due_date ipfs_cid risk_score = do
  require_auth env sme
  require_not_paused ac
  lift (require_non_zero_amount amount)
  lift (require_future_timestamp env due_date)
  lift (require_valid_risk_score risk_score)
  lift (require_non_empty_bytes debtor_hash)
  lift (require_non_empty_string ipfs_cid)
  invoice ← load_invoice invoice_id
  reject_if (not (status_eq invoice.status InvoiceStatus.created)) invalid_invoice_status
  reject_if (not (invoice.sme == sme)) not_invoice_owner
  modify (
      save_invoice invoice_id (record invoice {
        debtor_hash = debtor_hash;
        amount = amount;
        due_date = due_date;
        ipfs_cid = ipfs_cid;
        risk_score = risk_score;
        risk_tier = from_score risk_score;
      }))

unfoldable pub withdraw_invoice : Env → AccessControl → Address → ℕ → Action InvoiceNft (Unit {0})
withdraw_invoice env ac sme invoice_id = do
  require_auth env sme
  require_not_paused ac
  invoice ← load_invoice invoice_id
  reject_if (not (status_eq invoice.status InvoiceStatus.created)) invalid_invoice_status
  reject_if (not (invoice.sme == sme)) not_invoice_owner
  modify (λ s. record s { invoice = update s.invoice invoice_id none })
  modify (release_exposure invoice)

unfoldable pub commit_metadata_hash :
    Env → AccessControl → Address → ℕ → Bytes → Action InvoiceNft (Unit {0})
commit_metadata_hash env ac sme invoice_id metadata_hash = do
  require_auth env sme
  require_not_paused ac
  with_guard (do
    lift (require_non_empty_bytes metadata_hash)
    invoice ← load_invoice invoice_id
    reject_if (not (invoice.sme == sme)) unauthorized
    reject_if (not (status_eq invoice.status InvoiceStatus.created)) invalid_invoice_status
    reject_if (not (length invoice.metadata_hash == 0)) already_initialized
    modify (save_invoice invoice_id (record invoice { metadata_hash = metadata_hash })))
