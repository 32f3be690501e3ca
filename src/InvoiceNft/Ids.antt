-- ===== src/InvoiceNft/Ids.antt =====
-- contracts/invoice_nft/src/lib.rs: ids are not given twice, a metadata hash is committed once, and
-- the exposure that the credit limit is compared with.
use stellar_invoice_finance.Prelude.{
  ℕ, ◌+◌, ◌≡◌, ◌≢◌, ◌≤◌, ◌<◌, ◌≤ℤ◌, Option, none, some, ℤ, pos, arith, length, refl, ◌∙◌,
}
use stellar_invoice_finance.Shared.{Env, Address, Symbol, Bytes, ok, Invoice, created}
use stellar_invoice_finance.AccessControl.State.{AccessControl}
use stellar_invoice_finance.RiskRegistry.State.{RiskRegistry}
use stellar_invoice_finance.InvoiceNft.State.{
  InvoiceNft, Stored, current, old, next_id, get_outstanding_exposure,
}
use stellar_invoice_finance.InvoiceNft.Mint.{mint_invoice}
use stellar_invoice_finance.InvoiceNft.Effects
use stellar_invoice_finance.InvoiceNft.Frames
use stellar_invoice_finance.InvoiceNft.Steps.{Step, Reach, here, next, Deployed, Decoder, IsStrict}
use stellar_invoice_finance.InvoiceNft.Migrate.Kept.{migrate-Renews}
use stellar_invoice_finance.InvoiceNft.Steps.Invariant.{Deployed-IsSound, loaded-IsGood}
use stellar_invoice_finance.InvoiceNft.Edges.{Edge, Step-Edge}

-- No call lowers the next id.
Step-next_id :
    {decode : Decoder} {s s' : InvoiceNft}
    → IsStrict decode
    → Step decode s s'
    → next_id s ≤ next_id s'
Step-next_id {decode} {s} {s'} strict (Step.migrate env a h) =
    omega (arith, (migrate-Renews decode strict env a s s' h).ids)
Step-next_id {decode} {s} {s'} strict (Step.set_risk_registry env a rr h) =
    omega (arith, (Frames.set_risk_registry-Keeps env a rr s s' h).1)
Step-next_id {decode} {s} {s'} strict (Step.set_authorized_callers env a m p h) =
    omega (arith, (Frames.set_authorized_callers-Keeps env a m p s s' h).1)
Step-next_id {decode} {s} {s'} strict (Step.freeze_invoice env a id h) =
    omega (arith, (Frames.freeze_invoice-Keeps env a id s s' h).1)
Step-next_id {decode} {s} {s'} strict (Step.unfreeze_invoice env a id h) =
    omega (arith, (Frames.unfreeze_invoice-Keeps env a id s s' h).1)
Step-next_id {decode} {s} {s'} strict (Step.propose_upgrade env a x h) =
    omega (arith, (Frames.propose_upgrade-Keeps env a x s s' h).1)
Step-next_id {decode} {s} {s'} strict (Step.execute_upgrade env a h) =
    omega (arith, (Frames.execute_upgrade-Keeps env a s s' h).1)
Step-next_id {decode} {s} {s'} strict (Step.add_allowed_currency env a c h) =
    omega (arith, (Frames.add_allowed_currency-Keeps env a c s s' h).1)
Step-next_id {decode} {s} {s'} strict (Step.remove_allowed_currency env a c h) =
    omega (arith, (Frames.remove_allowed_currency-Keeps env a c s s' h).1)
Step-next_id {decode} {s} {s'} strict
      (Step.mint_invoice env ac rr sme hash amount currency due cid score notes id h) =
    let e =
      Effects.mint_invoice-eq_ok env ac rr sme hash amount currency due cid score notes s s' id h in
    rw e.7 (omega (arith, e.5))
Step-next_id {decode} {s} {s'} strict
      (Step.amend_invoice env ac sme id hash amount due cid score h) =
    rw (Effects.amend_invoice-eq_ok env ac sme id hash amount due cid score s s' h).7 (omega arith)
Step-next_id {decode} {s} {s'} strict (Step.withdraw_invoice env ac sme id h) =
    rw (Effects.withdraw_invoice-eq_ok env ac sme id s s' h).5 (omega arith)
Step-next_id {decode} {s} {s'} strict (Step.commit_metadata_hash env ac sme id hash h) =
    rw (Effects.commit_metadata_hash-eq_ok env ac sme id hash s s' h).8 (omega arith)
Step-next_id {decode} {s} {s'} strict (Step.set_listed env ac caller id h) =
    rw (Effects.set_listed-eq_ok env ac caller id s s' h).7 (omega arith)
Step-next_id {decode} {s} {s'} strict (Step.set_funded env ac caller id h) =
    rw (Effects.set_funded-eq_ok env ac caller id s s' h).7 (omega arith)
Step-next_id {decode} {s} {s'} strict (Step.set_repaid env ac caller id h) =
    rw (Effects.set_repaid-eq_ok env ac caller id s s' h).6 (omega arith)
Step-next_id {decode} {s} {s'} strict (Step.set_defaulted env caller id h) =
    rw (Effects.set_defaulted-eq_ok env caller id s s' h).7 (omega arith)

-- A slot that holds no record below the next id, or one whose metadata hash is committed.
abbrev pub KeepsHash : Bytes → Option Stored → Type 0
KeepsHash hash none = Unit
KeepsHash hash (some (current j)) = j.metadata_hash ≡ hash
KeepsHash hash (some (old v)) = ⊥

Edge-KeepsHash :
    (n bound : ℕ) (o o' : Option Stored) (hash : Bytes)
    → Edge n bound o o'
    → n < bound
    → length hash ≢ 0
    → KeepsHash hash o
    → KeepsHash hash o'
Edge-KeepsHash n bound o o' hash (Edge.keeps e) lt ne h = rw e h
Edge-KeepsHash n bound o o' hash (Edge.mints k e f g) lt ne h = absurd (omega arith)
Edge-KeepsHash n bound o o' hash (Edge.edits k j e f g) lt ne h =
    let before : k.metadata_hash ≡ hash = rw e at h in rw f (g.once (rw before ne) ∙ before)
Edge-KeepsHash n bound o o' hash (Edge.withdraws k e f g) lt ne h = rw g tt
Edge-KeepsHash n bound o o' hash (Edge.moves k j e f g t) lt ne h =
    let before : k.metadata_hash ≡ hash = rw e at h in rw f (t.same_metadata ∙ before)
Edge-KeepsHash n bound o o' hash (Edge.renews v j e f g) lt ne h =
    let bad : ⊥ = rw e at h in absurd bad

Reach-KeepsHash :
    {decode : Decoder} {s s' : InvoiceNft}
    → IsStrict decode
    → Reach decode s s'
    → (n : ℕ) (hash : Bytes) → n < next_id s
    → length hash ≢ 0
    → KeepsHash hash (s.invoice n)
    → KeepsHash hash (s'.invoice n) × (n < next_id s')
Reach-KeepsHash strict here n hash lt ne h = (h, lt)
Reach-KeepsHash strict (next {t} {u} steps st) n hash lt ne h =
    let (k, below) = Reach-KeepsHash strict steps n hash lt ne h in
    (
      Edge-KeepsHash n (next_id t) (t.invoice n) (u.invoice n) hash (Step-Edge strict st n) below ne
          k,
      omega (arith, Step-next_id strict st),
    )

-- A committed metadata hash is never replaced: once the record of an invoice has a hash that is not
-- empty, at every later time the invoice is withdrawn or has that hash, and its id is not given to
-- another invoice. The host is assumed to read no
-- record of the new schema as one of the old.
pub metadata_hash_is_final :
    (decode : Decoder) (s s' : InvoiceNft) (n : ℕ) (i : Invoice)
    → IsStrict decode
    → Deployed decode s
    → Reach decode s s'
    → s.invoice n ≡ some (current i)
    → length i.metadata_hash ≢ 0
    → KeepsHash i.metadata_hash (s'.invoice n)
metadata_hash_is_final decode s s' n i strict d r e ne =
    (Reach-KeepsHash strict r n i.metadata_hash
      (loaded-IsGood s (Deployed-IsSound s strict d) n i e).1 ne (rw e refl)).0

-- A mint, in a state that calls reach from deployment, gives a new id: the slot of the id that it
-- returns was empty and holds an invoice of the SME with the amount, in status `Created`; the next
-- id is one more, and every other slot is as it was. The host is assumed to read no
-- record of the new schema as one of the old.
pub mint_invoice_is_fresh :
    (env : Env) (ac : AccessControl) (rr : RiskRegistry) (sme : Address) (hash : Bytes) (amount : ℤ)
    (currency : Symbol) (due : ℕ) (cid : Bytes) (score : ℕ) (notes : Option Bytes) (id m : ℕ)
    (s s' : InvoiceNft) (decode : Decoder)
    → IsStrict decode
    → Deployed decode s
    → mint_invoice env ac rr sme hash amount currency due cid score notes s ≡ ok (id, s')
    → m ≢ id
    → (s.invoice id ≡ none)
      × ((i : Invoice) × (s'.invoice id ≡ some (current i))
          × (i.sme ≡ sme)
          × (i.amount ≡ amount)
          × (i.status ≡ created))
      × (next_id s' ≡ id + 1)
      × (s'.invoice m ≡ s.invoice m)
mint_invoice_is_fresh env ac rr sme hash amount currency due cid score notes id m s s' decode strict
      d h ne =
    let (auth, running, positive, future, scored, e, free, e') =
      Effects.mint_invoice-eq_ok env ac rr sme hash amount currency due cid score notes s s' id h in
    (
      (Deployed-IsSound s strict d).unused id (omega arith),
      (
        Effects.minted env id sme hash amount currency due cid score notes,
        rw e' (ground arith),
        refl,
        refl,
        refl,
      ),
      rw e',
      rw e' (ground arith),
    )

-- The outstanding exposure that the credit limit is compared with never grows: a mint leaves it as
-- it was, and in every state that calls reach from deployment it is at most zero, for every SME and
-- however many invoices the SME has outstanding. The host is assumed to read no
-- record of the new schema as one of the old.
pub exposure_never_grows :
    (env : Env) (ac : AccessControl) (rr : RiskRegistry) (sme : Address) (hash : Bytes) (amount : ℤ)
    (currency : Symbol) (due : ℕ) (cid : Bytes) (score : ℕ) (notes : Option Bytes) (id : ℕ)
    (a : Address) (s s' : InvoiceNft) (decode : Decoder)
    → IsStrict decode
    → Deployed decode s
    → mint_invoice env ac rr sme hash amount currency due cid score notes s ≡ ok (id, s')
    → (get_outstanding_exposure s' a ≡ get_outstanding_exposure s a)
      × (get_outstanding_exposure s a ≤ℤ pos 0)
exposure_never_grows env ac rr sme hash amount currency due cid score notes id a s s' decode strict
      d h =
    let (auth, running, positive, future, scored, e, free, e') =
      Effects.mint_invoice-eq_ok env ac rr sme hash amount currency due cid score notes s s' id h in
    (rw e', (Deployed-IsSound s strict d).exposed a)
