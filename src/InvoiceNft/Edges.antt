-- ===== src/InvoiceNft/Edges.antt =====
-- contracts/invoice_nft/src/lib.rs: what one call can do to the record of one invoice.
use stellar_invoice_finance.Prelude.{
  ℕ, ◌≡◌, ◌≢◌, Option, none, some, arith, update, length, ◌==◌, [], refl, Bool-cases, inl, inr,
}
use stellar_invoice_finance.Shared.{
  Invoice, InvoiceStatus, created, listed, funded, repaid, defaulted,
}
use stellar_invoice_finance.InvoiceNft.State.{InvoiceNft, InvoiceV1, Stored, current, old, next_id}
use stellar_invoice_finance.InvoiceNft.Effects
use stellar_invoice_finance.InvoiceNft.Effects.{minted}
use stellar_invoice_finance.InvoiceNft.Frames
use stellar_invoice_finance.InvoiceNft.Frames.{Keeps}
use stellar_invoice_finance.InvoiceNft.Steps.{Step, Decoder, IsStrict}
use stellar_invoice_finance.InvoiceNft.Migrate.{upgraded}
use stellar_invoice_finance.InvoiceNft.Migrate.Kept.{Renews, migrate-Renews}

-- The documented transitions.
pub data Follows : InvoiceStatus → InvoiceStatus → Type 0 where
  list : Follows created listed
  fund : Follows listed funded
  repay : Follows funded repaid
  default : Follows funded defaulted

-- All that an investor relies on: everything but the status, its dates and the notes.
pub record SameTerms (i j : Invoice) : Type 0 where
  pub same_id : j.id ≡ i.id
  pub same_sme : j.sme ≡ i.sme
  pub same_debtor : j.debtor_hash ≡ i.debtor_hash
  pub same_amount : j.amount ≡ i.amount
  pub same_currency : j.currency ≡ i.currency
  pub same_due : j.due_date ≡ i.due_date
  pub same_cid : j.ipfs_cid ≡ i.ipfs_cid
  pub same_metadata : j.metadata_hash ≡ i.metadata_hash
  pub same_score : j.risk_score ≡ i.risk_score

-- An invoice that is still `Created` may be amended, or its metadata hash committed once.
pub record Edits (i j : Invoice) : Type 0 where
  pub before : i.status ≡ created
  pub after : j.status ≡ created
  pub kept_id : j.id ≡ i.id
  pub kept_sme : j.sme ≡ i.sme
  pub once : length i.metadata_hash ≢ 0 → j.metadata_hash ≡ i.metadata_hash

-- The invoice `v` of the old schema in the new one.
pub record IsRenewal (v : InvoiceV1) (j : Invoice) : Type 0 where
  pub same_id : j.id ≡ v.id
  pub same_sme : j.sme ≡ v.sme
  pub same_debtor : j.debtor_hash ≡ v.debtor_hash
  pub same_amount : j.amount ≡ v.amount
  pub same_currency : j.currency ≡ v.currency
  pub same_due : j.due_date ≡ v.due_date
  pub same_cid : j.ipfs_cid ≡ v.ipfs_cid
  pub no_metadata : j.metadata_hash ≡ []
  pub same_score : j.risk_score ≡ v.risk_score
  pub same_tier : j.risk_tier ≡ v.risk_tier
  pub same_status : j.status ≡ v.status
  pub same_created : j.created_at ≡ v.created_at
  pub same_funded : j.funded_at ≡ v.funded_at
  pub same_repaid : j.repaid_at ≡ v.repaid_at
  pub no_notes : j.notes ≡ none

pub data Edge (n next : ℕ) (o o' : Option Stored) : Type 0 where
  keeps : o' ≡ o → Edge n next o o'
  mints : (i : Invoice) → n ≡ next → o' ≡ some (current i) → i.status ≡ created → Edge n next o o'
  edits :
      (i j : Invoice) → o ≡ some (current i) → o' ≡ some (current j) → Edits i j → Edge n next o o'
  withdraws :
      (i : Invoice) → o ≡ some (current i) → i.status ≡ created → o' ≡ none → Edge n next o o'
  moves :
      (i j : Invoice)
      → o ≡ some (current i)
      → o' ≡ some (current j)
      → Follows i.status j.status
      → SameTerms i j
      → Edge n next o o'
  renews :
      (v : InvoiceV1) (j : Invoice)
      → o ≡ some (old v)
      → o' ≡ some (current j)
      → IsRenewal v j
      → Edge n next o o'

-- A write to the slot `id` makes its own edge there and leaves every other slot.
at_slot :
    (f : ℕ → Option Stored) (n next id : ℕ) (o : Option Stored)
    → Edge id next (f id) o
    → Edge n next (f n) (update f id o n)
at_slot f n next id o g = elim (Bool-cases (n == id)) [
  | inl e ↦ let same : n ≡ id = ground arith in rw (e, same) g
  | inr e ↦ rw e (Edge.keeps refl)
]

Keeps-Edge :
    (s s' : InvoiceNft) (n : ℕ) → Keeps s s' → Edge n (next_id s) (s.invoice n) (s'.invoice n)
Keeps-Edge s s' n k = rw k.0 (Edge.keeps refl)

same_terms :
    (i : Invoice) (status : InvoiceStatus) (f r : Option ℕ)
    → SameTerms i (record i { status = status; funded_at = f; repaid_at = r })
same_terms i status f r = record {
  same_id = refl;
  same_sme = refl;
  same_debtor = refl;
  same_amount = refl;
  same_currency = refl;
  same_due = refl;
  same_cid = refl;
  same_metadata = refl;
  same_score = refl;
}

upgraded-IsRenewal : (v : InvoiceV1) → IsRenewal v (upgraded v)
unfolding upgraded
upgraded-IsRenewal v = record {
  same_id = refl;
  same_sme = refl;
  same_debtor = refl;
  same_amount = refl;
  same_currency = refl;
  same_due = refl;
  same_cid = refl;
  no_metadata = refl;
  same_score = refl;
  same_tier = refl;
  same_status = refl;
  same_created = refl;
  same_funded = refl;
  same_repaid = refl;
  no_notes = refl;
}

Renews-Edge :
    (s s' : InvoiceNft) (n : ℕ) → Renews s s' → Edge n (next_id s) (s.invoice n) (s'.invoice n)
Renews-Edge s s' n r = elim (r.each n) [
  | inl e ↦ Edge.keeps e
  | inr (v, e, f) ↦ Edge.renews v (upgraded v) e f (upgraded-IsRenewal v)
]

-- Every successful call after `initialize` leaves the record of invoice `n`, or mints it at the next
-- id, or edits or withdraws it while it is `Created`, or moves it along a documented transition, from
-- `Created` to `Listed`, to `Funded`, and to `Repaid` or `Defaulted`, with its terms unchanged, or is
-- a migration that turns a record of the old schema into the same invoice in the new one. The host
-- is assumed to read no record of the new schema as one of the old.
pub Step-Edge :
    {decode : Decoder} {s s' : InvoiceNft}
    → IsStrict decode
    → Step decode s s'
    → (n : ℕ) → Edge n (next_id s) (s.invoice n) (s'.invoice n)
Step-Edge {decode} {s} {s'} strict (Step.migrate env a h) n =
    Renews-Edge s s' n (migrate-Renews decode strict env a s s' h)
Step-Edge {decode} {s} {s'} strict (Step.set_risk_registry env a rr h) n =
    Keeps-Edge s s' n (Frames.set_risk_registry-Keeps env a rr s s' h)
Step-Edge {decode} {s} {s'} strict (Step.set_authorized_callers env a m p h) n =
    Keeps-Edge s s' n (Frames.set_authorized_callers-Keeps env a m p s s' h)
Step-Edge {decode} {s} {s'} strict (Step.freeze_invoice env a id h) n =
    Keeps-Edge s s' n (Frames.freeze_invoice-Keeps env a id s s' h)
Step-Edge {decode} {s} {s'} strict (Step.unfreeze_invoice env a id h) n =
    Keeps-Edge s s' n (Frames.unfreeze_invoice-Keeps env a id s s' h)
Step-Edge {decode} {s} {s'} strict (Step.propose_upgrade env a x h) n =
    Keeps-Edge s s' n (Frames.propose_upgrade-Keeps env a x s s' h)
Step-Edge {decode} {s} {s'} strict (Step.execute_upgrade env a h) n =
    Keeps-Edge s s' n (Frames.execute_upgrade-Keeps env a s s' h)
Step-Edge {decode} {s} {s'} strict (Step.add_allowed_currency env a c h) n =
    Keeps-Edge s s' n (Frames.add_allowed_currency-Keeps env a c s s' h)
Step-Edge {decode} {s} {s'} strict (Step.remove_allowed_currency env a c h) n =
    Keeps-Edge s s' n (Frames.remove_allowed_currency-Keeps env a c s s' h)
Step-Edge {decode} {s} {s'} strict
      (Step.mint_invoice env ac rr sme hash amount currency due cid score notes id h) n =
    let (auth, running, positive, future, scored, e, free, e') =
      Effects.mint_invoice-eq_ok env ac rr sme hash amount currency due cid score notes s s' id h in
    rw e' (
      at_slot s.invoice n (next_id s) id _
        (Edge.mints (minted env id sme hash amount currency due cid score notes) e refl refl))
Step-Edge {decode} {s} {s'} strict (Step.amend_invoice env ac sme id hash amount due cid score h)
      n =
    let (i, e, auth, own, status, positive, scored, e') =
      Effects.amend_invoice-eq_ok env ac sme id hash amount due cid score s s' h in
    rw e' (
      at_slot s.invoice n (next_id s) id _ (
        Edge.edits i _ e refl (record {
          before = status;
          after = status;
          kept_id = refl;
          kept_sme = refl;
          once = λ l. refl;
        })))
Step-Edge {decode} {s} {s'} strict (Step.withdraw_invoice env ac sme id h) n =
    let (i, e, auth, own, status, e') = Effects.withdraw_invoice-eq_ok env ac sme id s s' h in
    rw e' (at_slot s.invoice n (next_id s) id none (Edge.withdraws i e status refl))
Step-Edge {decode} {s} {s'} strict (Step.commit_metadata_hash env ac sme id hash h) n =
    let (i, e, auth, own, status, before, after, free, e') =
      Effects.commit_metadata_hash-eq_ok env ac sme id hash s s' h in
    rw e' (
      at_slot s.invoice n (next_id s) id _ (
        Edge.edits i _ e refl (record {
          before = status;
          after = status;
          kept_id = refl;
          kept_sme = refl;
          once = λ l. absurd (l before);
        })))
Step-Edge {decode} {s} {s'} strict (Step.set_listed env ac caller id h) n =
    let (i, e, auth, by, running, status, free, e') =
      Effects.set_listed-eq_ok env ac caller id s s' h in
    rw e' (
      at_slot s.invoice n (next_id s) id _ (
        Edge.moves i
          (record i { status = listed; funded_at = i.funded_at; repaid_at = i.repaid_at }) e refl
          (rw status Follows.list) (same_terms i listed i.funded_at i.repaid_at)))
Step-Edge {decode} {s} {s'} strict (Step.set_funded env ac caller id h) n =
    let (i, e, auth, by, running, status, free, e') =
      Effects.set_funded-eq_ok env ac caller id s s' h in
    rw e' (
      at_slot s.invoice n (next_id s) id _ (
        Edge.moves i
          (record i { status = funded; funded_at = some env.now; repaid_at = i.repaid_at }) e refl
          (rw status Follows.fund) (same_terms i funded (some env.now) i.repaid_at)))
Step-Edge {decode} {s} {s'} strict (Step.set_repaid env ac caller id h) n =
    let (i, e, auth, by, running, status, e') = Effects.set_repaid-eq_ok env ac caller id s s' h in
    rw e' (
      at_slot s.invoice n (next_id s) id _ (
        Edge.moves i
          (record i { status = repaid; funded_at = i.funded_at; repaid_at = some env.now }) e refl
          (rw status Follows.repay) (same_terms i repaid i.funded_at (some env.now))))
Step-Edge {decode} {s} {s'} strict (Step.set_defaulted env caller id h) n =
    let (i, e, auth, by, status, late, free, e') =
      Effects.set_defaulted-eq_ok env caller id s s' h in
    rw e' (
      at_slot s.invoice n (next_id s) id _ (
        Edge.moves i
          (record i { status = defaulted; funded_at = i.funded_at; repaid_at = i.repaid_at }) e refl
          (rw status Follows.default) (same_terms i defaulted i.funded_at i.repaid_at)))
