-- ===== src/InvoiceNft/Effects.antt =====
-- What a successful call of contracts/invoice_nft/src/lib.rs on an invoice required, and what it left.
use stellar_invoice_finance.Prelude.{
  ℕ, ◌+◌, ◌≡◌, ◌≢◌, ◌≤◌, ◌<◌, ◌≤ℤ◌, true, false, Option, none, some, [], ℤ, pos, arith, update,
  length, refl,
}
use stellar_invoice_finance.Shared.{
  Env, Address, Symbol, Bytes, ok, Invoice, InvoiceStatus, from_score,
}
use stellar_invoice_finance.AccessControl.State.{AccessControl, is_paused}
use stellar_invoice_finance.RiskRegistry.State.{RiskRegistry}
use stellar_invoice_finance.InvoiceNft.State.{
  InvoiceNft, InvoiceV1, Stored, current, old, save_invoice, release_exposure, next_id,
}
use stellar_invoice_finance.InvoiceNft.Mint
use stellar_invoice_finance.InvoiceNft.Mint.{check_credit}
use stellar_invoice_finance.InvoiceNft.Lifecycle

pub data Slot (o : Option Stored) : Type 0 where
  empty : o ≡ none → Slot o
  holds : (i : Invoice) → o ≡ some (current i) → Slot o
  stale : (i : InvoiceV1) → o ≡ some (old i) → Slot o

pub slot : (o : Option Stored) → Slot o
slot none = Slot.empty refl
slot (some (current i)) = Slot.holds i refl
slot (some (old i)) = Slot.stale i refl

pub amend_invoice-eq_ok :
    (env : Env) (ac : AccessControl) (sme : Address) (id : ℕ) (debtor_hash : Bytes) (amount : ℤ)
    (due_date : ℕ) (ipfs_cid : Bytes) (risk_score : ℕ) (s s' : InvoiceNft)
    → Mint.amend_invoice env ac sme id debtor_hash amount due_date ipfs_cid risk_score s
      ≡ ok (tt, s')
    → (i : Invoice) × (s.invoice id ≡ some (current i))
      × (env.auth sme ≡ true)
      × (i.sme ≡ sme)
      × (i.status ≡ InvoiceStatus.created)
      × (pos 1 ≤ℤ amount)
      × (risk_score ≤ 100)
      × (s'
          ≡ save_invoice id
              (record i {
                debtor_hash = debtor_hash;
                amount = amount;
                due_date = due_date;
                ipfs_cid = ipfs_cid;
                risk_score = risk_score;
                risk_tier = from_score risk_score;
              })
              s)
unfolding Mint.amend_invoice
amend_invoice-eq_ok env ac sme id debtor_hash amount due_date ipfs_cid risk_score s s' h =
    elim (slot (s.invoice id)) [
      | Slot.empty e ↦ absurd (ground arith)
      | Slot.holds i e ↦
          (i, e, ground arith, ground arith, ground arith, ground arith, ground arith, ground arith)
      | Slot.stale i e ↦ absurd (ground arith)
    ]

pub withdraw_invoice-eq_ok :
    (env : Env) (ac : AccessControl) (sme : Address) (id : ℕ) (s s' : InvoiceNft)
    → Mint.withdraw_invoice env ac sme id s ≡ ok (tt, s')
    → (i : Invoice) × (s.invoice id ≡ some (current i))
      × (env.auth sme ≡ true)
      × (i.sme ≡ sme)
      × (i.status ≡ InvoiceStatus.created)
      × (s' ≡ release_exposure i (record s { invoice = update s.invoice id none }))
unfolding Mint.withdraw_invoice
withdraw_invoice-eq_ok env ac sme id s s' h = elim (slot (s.invoice id)) [
  | Slot.empty e ↦ absurd (ground arith)
  | Slot.holds i e ↦ (i, e, ground arith, ground arith, ground arith, ground arith)
  | Slot.stale i e ↦ absurd (ground arith)
]

pub commit_metadata_hash-eq_ok :
    (env : Env) (ac : AccessControl) (sme : Address) (id : ℕ) (metadata_hash : Bytes)
    (s s' : InvoiceNft)
    → Mint.commit_metadata_hash env ac sme id metadata_hash s ≡ ok (tt, s')
    → (i : Invoice) × (s.invoice id ≡ some (current i))
      × (env.auth sme ≡ true)
      × (i.sme ≡ sme)
      × (i.status ≡ InvoiceStatus.created)
      × (length i.metadata_hash ≡ 0)
      × (length metadata_hash ≢ 0)
      × (s.lock ≡ false)
      × (s' ≡ record (save_invoice id (record i { metadata_hash = metadata_hash }) s) {
        lock = false;
      })
unfolding Mint.commit_metadata_hash
commit_metadata_hash-eq_ok env ac sme id metadata_hash s s' h = elim (slot (s.invoice id)) [
  | Slot.empty e ↦ absurd (ground arith)
  | Slot.holds i e ↦ (
    i,
    e,
    ground arith,
    ground arith,
    ground arith,
    ground arith,
    ground arith,
    ground arith,
    ground arith,
  )
  | Slot.stale i e ↦ absurd (ground arith)
]

pub set_listed-eq_ok :
    (env : Env) (ac : AccessControl) (caller : Address) (id : ℕ) (s s' : InvoiceNft)
    → Lifecycle.set_listed env ac caller id s ≡ ok (tt, s')
    → (i : Invoice) × (s.invoice id ≡ some (current i))
      × (env.auth caller ≡ true)
      × (s.marketplace ≡ some caller)
      × (is_paused ac ≡ false)
      × (i.status ≡ InvoiceStatus.created)
      × (s.lock ≡ false)
      × (s' ≡ record (save_invoice id (record i { status = InvoiceStatus.listed }) s) {
        lock = false;
      })
unfolding Lifecycle.set_listed
set_listed-eq_ok env ac caller id s s' h = elim (slot (s.invoice id)) [
  | Slot.empty e ↦ absurd (ground arith)
  | Slot.holds i e ↦
      (i, e, ground arith, ground arith, ground arith, ground arith, ground arith, ground arith)
  | Slot.stale i e ↦ absurd (ground arith)
]

pub set_funded-eq_ok :
    (env : Env) (ac : AccessControl) (caller : Address) (id : ℕ) (s s' : InvoiceNft)
    → Lifecycle.set_funded env ac caller id s ≡ ok (tt, s')
    → (i : Invoice) × (s.invoice id ≡ some (current i))
      × (env.auth caller ≡ true)
      × (s.financing_pool ≡ some caller)
      × (is_paused ac ≡ false)
      × (i.status ≡ InvoiceStatus.listed)
      × (s.lock ≡ false)
      × (s'
          ≡ record (save_invoice id
              (record i { status = InvoiceStatus.funded; funded_at = some env.now })
              s) { lock = false })
unfolding Lifecycle.set_funded
set_funded-eq_ok env ac caller id s s' h = elim (slot (s.invoice id)) [
  | Slot.empty e ↦ absurd (ground arith)
  | Slot.holds i e ↦
      (i, e, ground arith, ground arith, ground arith, ground arith, ground arith, ground arith)
  | Slot.stale i e ↦ absurd (ground arith)
]

pub set_repaid-eq_ok :
    (env : Env) (ac : AccessControl) (caller : Address) (id : ℕ) (s s' : InvoiceNft)
    → Lifecycle.set_repaid env ac caller id s ≡ ok (tt, s')
    → (i : Invoice) × (s.invoice id ≡ some (current i))
      × (env.auth caller ≡ true)
      × (s.financing_pool ≡ some caller)
      × (is_paused ac ≡ false)
      × (i.status ≡ InvoiceStatus.funded)
      × (s'
          ≡ release_exposure i (
              save_invoice id
                (record i { status = InvoiceStatus.repaid; repaid_at = some env.now })
                s))
unfolding Lifecycle.set_repaid
set_repaid-eq_ok env ac caller id s s' h = elim (slot (s.invoice id)) [
  | Slot.empty e ↦ absurd (ground arith)
  | Slot.holds i e ↦ (i, e, ground arith, ground arith, ground arith, ground arith, ground arith)
  | Slot.stale i e ↦ absurd (ground arith)
]

pub set_defaulted-eq_ok :
    (env : Env) (caller : Address) (id : ℕ) (s s' : InvoiceNft)
    → Lifecycle.set_defaulted env caller id s ≡ ok (tt, s')
    → (i : Invoice) × (s.invoice id ≡ some (current i))
      × (env.auth caller ≡ true)
      × (s.admin ≡ some caller)
      × (i.status ≡ InvoiceStatus.funded)
      × (i.due_date < env.now)
      × (s.lock ≡ false)
      × (s'
          ≡ record (release_exposure i
              (save_invoice id (record i { status = InvoiceStatus.defaulted }) s)) { lock = false })
unfolding Lifecycle.set_defaulted
set_defaulted-eq_ok env caller id s s' h = elim (slot (s.invoice id)) [
  | Slot.empty e ↦ absurd (ground arith)
  | Slot.holds i e ↦
      (i, e, ground arith, ground arith, ground arith, ground arith, ground arith, ground arith)
  | Slot.stale i e ↦ absurd (ground arith)
]

abbrev pub minted : Env → ℕ → Address → Bytes → ℤ → Symbol → ℕ → Bytes → ℕ → Option Bytes → Invoice
minted env id sme debtor_hash amount currency due_date ipfs_cid risk_score notes = record {
  id = id;
  sme = sme;
  debtor_hash = debtor_hash;
  amount = amount;
  currency = currency;
  due_date = due_date;
  ipfs_cid = ipfs_cid;
  metadata_hash = [];
  risk_score = risk_score;
  risk_tier = from_score risk_score;
  status = InvoiceStatus.created;
  created_at = env.now;
  funded_at = none;
  repaid_at = none;
  notes = notes;
}

pub mint_invoice-eq_ok :
    (env : Env) (ac : AccessControl) (rr : RiskRegistry) (sme : Address) (debtor_hash : Bytes)
    (amount : ℤ) (currency : Symbol) (due_date : ℕ) (ipfs_cid : Bytes) (risk_score : ℕ)
    (notes : Option Bytes) (s s' : InvoiceNft) (id : ℕ)
    → Mint.mint_invoice env ac rr sme debtor_hash amount currency due_date ipfs_cid risk_score notes
        s
      ≡ ok (id, s')
    → (env.auth sme ≡ true)
      × (is_paused ac ≡ false)
      × (pos 1 ≤ℤ amount)
      × (env.now < due_date)
      × (risk_score ≤ 100)
      × (id ≡ next_id s)
      × (s.lock ≡ false)
      × (s'
          ≡ record (save_invoice id
              (minted env id sme debtor_hash amount currency due_date ipfs_cid risk_score notes)
              s) { next_invoice_id = some (id + 1); lock = false })
unfolding Mint.mint_invoice
mint_invoice-eq_ok env ac rr sme debtor_hash amount currency due_date ipfs_cid risk_score notes s s'
      id h =
    ground arith
