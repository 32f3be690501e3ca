-- ===== src/InvoiceNft/Steps/Invariant.antt =====
-- What holds of every invoice of contracts/invoice_nft/src/lib.rs, after any history of calls.
use stellar_invoice_finance.Prelude.{
  ℕ, ◌+◌, ◌≡◌, ◌≤◌, ◌<◌, ◌≤ℤ◌, true, false, Option, none, some, ℤ, pos, arith, update, get_or, ◌==◌,
  refl, ◌∙◌, Every, Every-some, is_some, saturate, saturating_sub, -ℤ_parts, Bool-cases, inl, inr,
}
use stellar_invoice_finance.Shared.{
  Env, Address, ok, Invoice, InvoiceStatus, created, listed, funded, repaid, defaulted, from_score,
}
use stellar_invoice_finance.InvoiceNft.State.{
  InvoiceNft, Stored, current, old, fresh, save_invoice, release_exposure, next_id,
}
use stellar_invoice_finance.InvoiceNft.Admin
use stellar_invoice_finance.InvoiceNft.Effects
use stellar_invoice_finance.InvoiceNft.Effects.{minted}
use stellar_invoice_finance.InvoiceNft.Frames
use stellar_invoice_finance.InvoiceNft.Frames.{Keeps}
use stellar_invoice_finance.InvoiceNft.Steps.{
  Step, Reach, here, next, Deployed, deployed, Decoder, IsStrict,
}
use stellar_invoice_finance.InvoiceNft.Migrate.Kept.{Renews, migrate-Renews}

-- Which of `funded_at` and `repaid_at` a status goes with.
abbrev pub Dated : InvoiceStatus → Option ℕ → Option ℕ → Type 0
Dated created f r = (is_some f ≡ false) × (is_some r ≡ false)
Dated listed f r = (is_some f ≡ false) × (is_some r ≡ false)
Dated funded f r = (is_some f ≡ true) × (is_some r ≡ false)
Dated repaid f r = (is_some f ≡ true) × (is_some r ≡ true)
Dated defaulted f r = (is_some f ≡ true) × (is_some r ≡ false)

pub record IsGood (n : ℕ) (i : Invoice) : Type 0 where
  pub own_id : i.id ≡ n
  pub positive : pos 1 ≤ℤ i.amount
  pub scored : i.risk_score ≤ 100
  pub tiered : i.risk_tier ≡ from_score i.risk_score
  pub dated : Dated i.status i.funded_at i.repaid_at

abbrev pub IsGoodSlot : ℕ → Stored → Type 0
IsGoodSlot n (current i) = IsGood n i
IsGoodSlot n (old v) = ⊥

pub record Sound (invoice : ℕ → Option Stored) (next_id : ℕ) (exposure : Address → Option ℤ)
    : Type 0 where
  pub unused : (n : ℕ) → next_id ≤ n → invoice n ≡ none
  pub good : (n : ℕ) → Every (IsGoodSlot n) (invoice n)
  pub exposed : (a : Address) → get_or (exposure a) (pos 0) ≤ℤ pos 0

abbrev pub IsSound : InvoiceNft → Type 0
IsSound s = Sound s.invoice (next_id s) s.outstanding_exposure

saturating_sub-le : (a b : ℤ) → a ≤ℤ pos 0 → pos 1 ≤ℤ b → saturating_sub a b ≤ℤ pos 0
unfolding saturate
saturating_sub-le a b h k = ground (arith, -ℤ_parts a b)

-- Writing a good invoice to a slot keeps the slots good.
good-save :
    (f : ℕ → Option Stored) (n : ℕ) (i : Invoice)
    → ((m : ℕ) → Every (IsGoodSlot m) (f m))
    → IsGood n i
    → (m : ℕ) → Every (IsGoodSlot m) (update f n (some (current i)) m)
good-save f n i h g m = elim (Bool-cases (m == n)) [
  | inl e ↦ rw e (let same : m ≡ n = ground arith in rw same g)
  | inr e ↦ rw e (h m)
]

pub loaded-IsGood :
    (s : InvoiceNft)
    → IsSound s
    → (n : ℕ) (i : Invoice) → s.invoice n ≡ some (current i)
    → IsGood n i × (n < next_id s)
loaded-IsGood s v n i e =
    (Every-some (IsGoodSlot n) (s.invoice n) (current i) (v.good n) e, ground (arith, v.unused n))

save-IsSound :
    (s : InvoiceNft) (n : ℕ) (i : Invoice)
    → IsSound s
    → IsGood n i
    → n < next_id s
    → IsSound (save_invoice n i s)
save-IsSound s n i v g lt = record {
  unused = λ m h. ground (arith, v.unused m);
  good = good-save s.invoice n i v.good g;
  exposed = v.exposed;
}

release-IsSound :
    (s : InvoiceNft) (i : Invoice) → IsSound s → pos 1 ≤ℤ i.amount → IsSound (release_exposure i s)
release-IsSound s i v h = record {
  unused = v.unused;
  good = v.good;
  exposed = λ a. elim (Bool-cases (a == i.sme)) [
    | inl e ↦ rw e (
        saturating_sub-le (get_or (s.outstanding_exposure i.sme) (pos 0)) i.amount (v.exposed i.sme)
          h)
    | inr e ↦ rw e (v.exposed a)
  ];
}

Keeps-IsSound : (s s' : InvoiceNft) → Keeps s s' → IsSound s → IsSound s'
Keeps-IsSound s s' k v = rw (k.0, k.1, k.2) v

mint_invoice-IsSound :
    (s : InvoiceNft) (n : ℕ) (i : Invoice)
    → n ≡ next_id s
    → IsSound s
    → IsGood n i
    → Sound (update s.invoice n (some (current i))) (n + 1) s.outstanding_exposure
mint_invoice-IsSound s n i e v g = record {
  unused = λ m h. ground (arith, v.unused m);
  good = good-save s.invoice n i v.good g;
  exposed = v.exposed;
}

withdraw_invoice-IsSound :
    (s : InvoiceNft) (n : ℕ) → IsSound s → IsSound (record s { invoice = update s.invoice n none })
withdraw_invoice-IsSound s n v = record {
  unused = λ m h. ground (arith, v.unused m);
  good = λ m. elim (Bool-cases (m == n)) [ inl e ↦ rw e tt | inr e ↦ rw e (v.good m) ];
  exposed = v.exposed;
}

Renews-IsSound : (s s' : InvoiceNft) → Renews s s' → IsSound s → IsSound s'
Renews-IsSound s s' r v =
    rw (r.ids, r.exposure)
      (record {
        unused = λ n h.
            let free = v.unused n h in
            elim (r.each n) [ inl e ↦ e ∙ free | inr (w, e, f) ↦ absurd (ground (arith, e, free)) ];
        good = λ n. elim (r.each n) [
          | inl e ↦ rw e (v.good n)
          | inr (w, e, f) ↦ absurd (Every-some (IsGoodSlot n) (s.invoice n) (old w) (v.good n) e)
        ];
        exposed = v.exposed;
      })

pub Step-IsSound :
    {decode : Decoder} {s s' : InvoiceNft}
    → IsStrict decode
    → Step decode s s'
    → IsSound s
    → IsSound s'
Step-IsSound {decode} {s} {s'} strict (Step.migrate env a h) v =
    Renews-IsSound s s' (migrate-Renews decode strict env a s s' h) v
Step-IsSound {decode} {s} {s'} strict (Step.set_risk_registry env a rr h) v =
    Keeps-IsSound s s' (Frames.set_risk_registry-Keeps env a rr s s' h) v
Step-IsSound {decode} {s} {s'} strict (Step.set_authorized_callers env a m p h) v =
    Keeps-IsSound s s' (Frames.set_authorized_callers-Keeps env a m p s s' h) v
Step-IsSound {decode} {s} {s'} strict (Step.freeze_invoice env a id h) v =
    Keeps-IsSound s s' (Frames.freeze_invoice-Keeps env a id s s' h) v
Step-IsSound {decode} {s} {s'} strict (Step.unfreeze_invoice env a id h) v =
    Keeps-IsSound s s' (Frames.unfreeze_invoice-Keeps env a id s s' h) v
Step-IsSound {decode} {s} {s'} strict (Step.propose_upgrade env a x h) v =
    Keeps-IsSound s s' (Frames.propose_upgrade-Keeps env a x s s' h) v
Step-IsSound {decode} {s} {s'} strict (Step.execute_upgrade env a h) v =
    Keeps-IsSound s s' (Frames.execute_upgrade-Keeps env a s s' h) v
Step-IsSound {decode} {s} {s'} strict (Step.add_allowed_currency env a c h) v =
    Keeps-IsSound s s' (Frames.add_allowed_currency-Keeps env a c s s' h) v
Step-IsSound {decode} {s} {s'} strict (Step.remove_allowed_currency env a c h) v =
    Keeps-IsSound s s' (Frames.remove_allowed_currency-Keeps env a c s s' h) v
Step-IsSound {decode} {s} strict
      (Step.mint_invoice env ac rr sme hash amount currency due cid score notes id h) v =
    let (auth, running, positive, future, scored, e, free, e') =
      Effects.mint_invoice-eq_ok env ac rr sme hash amount currency due cid score notes _ _ id h in
    let i : Invoice = minted env id sme hash amount currency due cid score notes in
    let g : IsGood id i = record {
      own_id = refl;
      positive = positive;
      scored = scored;
      tiered = refl;
      dated = (refl, refl);
    } in
    rw e' (mint_invoice-IsSound s id i e v g)
Step-IsSound {decode} {s} strict (Step.amend_invoice env ac sme id hash amount due cid score h) v =
    let (i, e, auth, own, status, positive, scored, e') =
      Effects.amend_invoice-eq_ok env ac sme id hash amount due cid score _ _ h in
    let (g, lt) = loaded-IsGood s v id i e in
    rw e' (
      save-IsSound s id _ v
        (record {
          own_id = g.own_id;
          positive = positive;
          scored = scored;
          tiered = refl;
          dated = g.dated;
        })
        lt)
Step-IsSound {decode} {s} strict (Step.withdraw_invoice env ac sme id h) v =
    let (i, e, auth, own, status, e') = Effects.withdraw_invoice-eq_ok env ac sme id _ _ h in
    let (g, lt) = loaded-IsGood s v id i e in
    rw e' (
      release-IsSound (record s { invoice = update s.invoice id none }) i
        (withdraw_invoice-IsSound s id v) g.positive)
Step-IsSound {decode} {s} strict (Step.commit_metadata_hash env ac sme id hash h) v =
    let (i, e, auth, own, status, before, after, free, e') =
      Effects.commit_metadata_hash-eq_ok env ac sme id hash _ _ h in
    let (g, lt) = loaded-IsGood s v id i e in
    rw e' (
      save-IsSound s id (record i { metadata_hash = hash }) v
        (record {
          own_id = g.own_id;
          positive = g.positive;
          scored = g.scored;
          tiered = g.tiered;
          dated = g.dated;
        })
        lt)
Step-IsSound {decode} {s} strict (Step.set_listed env ac caller id h) v =
    let (i, e, auth, by, running, status, free, e') =
      Effects.set_listed-eq_ok env ac caller id _ _ h in
    let (g, lt) = loaded-IsGood s v id i e in
    rw e' (
      save-IsSound s id (record i { status = listed }) v
        (record {
          own_id = g.own_id;
          positive = g.positive;
          scored = g.scored;
          tiered = g.tiered;
          dated = ground (arith, g.dated);
        })
        lt)
Step-IsSound {decode} {s} strict (Step.set_funded env ac caller id h) v =
    let (i, e, auth, by, running, status, free, e') =
      Effects.set_funded-eq_ok env ac caller id _ _ h in
    let (g, lt) = loaded-IsGood s v id i e in
    rw e' (
      save-IsSound s id (record i { status = funded; funded_at = some env.now }) v
        (record {
          own_id = g.own_id;
          positive = g.positive;
          scored = g.scored;
          tiered = g.tiered;
          dated = ground (arith, g.dated);
        })
        lt)
Step-IsSound {decode} {s} strict (Step.set_repaid env ac caller id h) v =
    let (i, e, auth, by, running, status, e') = Effects.set_repaid-eq_ok env ac caller id _ _ h in
    let (g, lt) = loaded-IsGood s v id i e in
    rw e' (
      release-IsSound (save_invoice id (record i { status = repaid; repaid_at = some env.now }) s) i
        (save-IsSound s id (record i { status = repaid; repaid_at = some env.now }) v
          (record {
            own_id = g.own_id;
            positive = g.positive;
            scored = g.scored;
            tiered = g.tiered;
            dated = ground (arith, g.dated);
          })
          lt)
        g.positive)
Step-IsSound {decode} {s} strict (Step.set_defaulted env caller id h) v =
    let (i, e, auth, by, status, late, free, e') =
      Effects.set_defaulted-eq_ok env caller id _ _ h in
    let (g, lt) = loaded-IsGood s v id i e in
    rw e' (
      release-IsSound (save_invoice id (record i { status = defaulted }) s) i
        (save-IsSound s id (record i { status = defaulted }) v
          (record {
            own_id = g.own_id;
            positive = g.positive;
            scored = g.scored;
            tiered = g.tiered;
            dated = ground (arith, g.dated);
          })
          lt)
        g.positive)

pub Reach-IsSound :
    {decode : Decoder} {s s' : InvoiceNft}
    → IsStrict decode
    → Reach decode s s'
    → IsSound s
    → IsSound s'
Reach-IsSound strict here v = v
Reach-IsSound strict (next r st) v = Step-IsSound strict st (Reach-IsSound strict r v)

initialize-IsSound :
    (env : Env) (a ac : Address) (s : InvoiceNft)
    → Admin.initialize env a ac fresh ≡ ok (tt, s)
    → IsSound s
initialize-IsSound env a ac s h =
    let (none_yet, e, f, g, b) = Frames.initialize_lem env a ac fresh s h in
    rw (e, f, g) (record { unused = λ n l. refl; good = λ n. tt; exposed = λ x. omega arith })

pub Deployed-IsSound :
    {decode : Decoder} (s : InvoiceNft) → IsStrict decode → Deployed decode s → IsSound s
Deployed-IsSound s strict (deployed env a ac s0 h r) =
    Reach-IsSound strict r (initialize-IsSound env a ac s0 h)
