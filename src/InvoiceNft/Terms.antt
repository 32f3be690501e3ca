-- ===== src/InvoiceNft/Terms.antt =====
-- contracts/invoice_nft/src/lib.rs: once an invoice is listed its terms are fixed, and ids and
-- metadata hashes are never reused.
use stellar_invoice_finance.Prelude.{ℕ, ◌≡◌, ◌≢◌, ◌≤◌, ◌<◌, Option, some, arith, refl, ◌∙◌}
use stellar_invoice_finance.Shared.{
  Invoice, InvoiceStatus, created, listed, funded, repaid, defaulted,
}
use stellar_invoice_finance.InvoiceNft.State.{InvoiceNft, Stored, current, next_id}
use stellar_invoice_finance.InvoiceNft.Steps.{Reach, here, next, Deployed, Decoder, IsStrict}
use stellar_invoice_finance.InvoiceNft.Steps.Invariant.{
  IsSound, IsGood, Reach-IsSound, Deployed-IsSound, loaded-IsGood,
}
use stellar_invoice_finance.InvoiceNft.Edges.{Edge, Follows, SameTerms, Step-Edge}

abbrev pub rank : InvoiceStatus → ℕ
rank created = 0
rank listed = 1
rank funded = 2
rank repaid = 3
rank defaulted = 3

-- `j` is a later record of the invoice `i`: same terms, status not moved back, and the same status
-- if that is `Repaid` or `Defaulted`.
pub record IsLater (i j : Invoice) : Type 0 where
  pub terms : SameTerms i j
  pub forward : rank i.status ≤ rank j.status
  pub final : 3 ≤ rank i.status → j.status ≡ i.status

IsLater-refl : (i : Invoice) → IsLater i i
IsLater-refl i = record {
  terms = record {
    same_id = refl;
    same_sme = refl;
    same_debtor = refl;
    same_amount = refl;
    same_currency = refl;
    same_due = refl;
    same_cid = refl;
    same_metadata = refl;
    same_score = refl;
  };
  forward = omega arith;
  final = λ h. refl;
}

SameTerms-trans : (i j k : Invoice) → SameTerms i j → SameTerms j k → SameTerms i k
SameTerms-trans i j k p q = record {
  same_id = q.same_id ∙ p.same_id;
  same_sme = q.same_sme ∙ p.same_sme;
  same_debtor = q.same_debtor ∙ p.same_debtor;
  same_amount = q.same_amount ∙ p.same_amount;
  same_currency = q.same_currency ∙ p.same_currency;
  same_due = q.same_due ∙ p.same_due;
  same_cid = q.same_cid ∙ p.same_cid;
  same_metadata = q.same_metadata ∙ p.same_metadata;
  same_score = q.same_score ∙ p.same_score;
}

IsLater-trans : (i j k : Invoice) → IsLater i j → IsLater j k → IsLater i k
IsLater-trans i j k p q = record {
  terms = SameTerms-trans i j k p.terms q.terms;
  forward = omega arith;
  final = λ h. q.final (rw (p.final h) h) ∙ p.final h;
}

Follows-rank : {a b : InvoiceStatus} → Follows a b → (rank a < rank b) × (rank a < 3)
Follows-rank Follows.list = omega arith
Follows-rank Follows.fund = omega arith
Follows-rank Follows.repay = omega arith
Follows-rank Follows.default = omega arith

same_current :
    (i j : Invoice) (o : Option Stored) → o ≡ some (current i) → o ≡ some (current j) → i ≡ j
same_current i j o p q = cc

Edge-IsLater :
    (n bound : ℕ) (o o' : Option Stored) (i : Invoice)
    → Edge n bound o o'
    → n < bound
    → o ≡ some (current i)
    → 1 ≤ rank i.status
    → (j : Invoice) × (o' ≡ some (current j)) × IsLater i j
Edge-IsLater n bound o o' i (Edge.keeps e) lt h r = (i, e ∙ h, IsLater-refl i)
Edge-IsLater n bound o o' i (Edge.mints k e f g) lt h r = absurd (omega arith)
Edge-IsLater n bound o o' i (Edge.edits k j e f g) lt h r =
    let same = same_current i k o h e in absurd (ground (arith, g.before))
Edge-IsLater n bound o o' i (Edge.withdraws k e f g) lt h r =
    let same = same_current i k o h e in absurd (ground arith)
Edge-IsLater n bound o o' i (Edge.moves k j e f g t) lt h r =
    let same = same_current i k o h e in
    (
      j,
      f,
      rw same (record {
        terms = t;
        forward = omega (arith, Follows-rank g);
        final = λ x. absurd (omega (arith, Follows-rank g));
      }),
    )
Edge-IsLater n bound o o' i (Edge.renews v j e f g) lt h r = absurd (ground (arith, e, h))

Reach-IsLater :
    {decode : Decoder} {s s' : InvoiceNft}
    → IsStrict decode
    → Reach decode s s'
    → IsSound s
    → (n : ℕ) (i : Invoice) → s.invoice n ≡ some (current i)
    → 1 ≤ rank i.status
    → (j : Invoice) × (s'.invoice n ≡ some (current j)) × IsLater i j
Reach-IsLater strict here v n i e r = (i, e, IsLater-refl i)
Reach-IsLater strict (next {t} {u} steps st) v n i e r =
    let (j, f, later) = Reach-IsLater strict steps v n i e r in
    let lt = (loaded-IsGood t (Reach-IsSound strict steps v) n j f).1 in
    let (k, g, last) =
      Edge-IsLater n (next_id t) (t.invoice n) (u.invoice n) j (Step-Edge strict st n) lt f
        (omega (arith, later.forward)) in
    (k, g, IsLater-trans i j k later last)

-- From the moment that an invoice has left `Created`, whatever calls follow, its record stays, with
-- the same id, SME, debtor hash, amount, currency, due date, CID, metadata hash and score; its
-- status never moves back, and `Repaid` and `Defaulted` are final. The host is assumed to read no
-- record of the new schema as one of the old.
pub listed_invoice_is_fixed :
    (decode : Decoder) (s s' : InvoiceNft) (n : ℕ) (i : Invoice)
    → IsStrict decode
    → Deployed decode s
    → Reach decode s s'
    → s.invoice n ≡ some (current i)
    → i.status ≢ created
    → (j : Invoice) × (s'.invoice n ≡ some (current j)) × IsLater i j
listed_invoice_is_fixed decode s s' n i strict d r e ne =
    Reach-IsLater strict r (Deployed-IsSound s strict d) n i e (ground arith)

-- Every stored invoice carries the id of its slot, which is below the next id, a positive amount, a
-- score of at most 100 with the tier of that score, a funding date exactly when it is `Funded`,
-- `Repaid` or `Defaulted`, and a repayment date exactly when it is `Repaid`, in every state that
-- calls reach from deployment. The host is assumed to read no record of the new schema as one of the
-- old.
pub stored_invoice-IsGood :
    (decode : Decoder) (s : InvoiceNft) (n : ℕ) (i : Invoice)
    → IsStrict decode
    → Deployed decode s
    → s.invoice n ≡ some (current i)
    → IsGood n i × (n < next_id s)
stored_invoice-IsGood decode s n i strict d e = loaded-IsGood s (Deployed-IsSound s strict d) n i e
