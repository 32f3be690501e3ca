-- ===== src/Tests/InvoiceNft.antt =====
-- The life of one invoice of contracts/invoice_nft/src/lib.rs: SME 10, marketplace 20, pool 30.
use stellar_invoice_finance.Prelude.{
  ℕ, ◌≡◌, ◌<◌, ◌≤◌, ◌+◌, ◌≤ℤ◌, true, none, some, [], ◌∷◌, refl, arith, pos, if◌then◌else◌, leb, ltb,
  ◌&&◌,
}
use stellar_invoice_finance.Shared.{
  Env, ok, err, panic, Invoice, from_score, invalid_invoice_status, RiskTier, InvoiceStatus,
}
use stellar_invoice_finance.AccessControl.State.{fresh as ac}
use stellar_invoice_finance.RiskRegistry.State.{fresh as rr}
use stellar_invoice_finance.InvoiceNft.State.{
  InvoiceNft, current, old, fresh, get_outstanding_exposure, next_id,
}
use stellar_invoice_finance.InvoiceNft.Admin.{initialize, set_authorized_callers}
use stellar_invoice_finance.InvoiceNft.Mint.{mint_invoice, commit_metadata_hash}
use stellar_invoice_finance.InvoiceNft.Lifecycle.{set_listed, set_funded, set_defaulted}
use stellar_invoice_finance.InvoiceNft.Migrate.{migrate}
use stellar_invoice_finance.InvoiceNft.Migrate.Upgrade.{migrate_renews, renewed, IsAged}
use stellar_invoice_finance.InvoiceNft.Steps.{
  Step, here, next, Deployed, deployed, Decoder, IsStrict,
}
use stellar_invoice_finance.InvoiceNft.Steps.Invariant.{IsGood}
use stellar_invoice_finance.InvoiceNft.Edges.{Edge, Step-Edge}
use stellar_invoice_finance.InvoiceNft.Terms.{
  IsLater, listed_invoice_is_fixed, stored_invoice-IsGood,
}
use stellar_invoice_finance.InvoiceNft.Ids.{
  KeepsHash, metadata_hash_is_final, mint_invoice_is_fresh, exposure_never_grows,
}
use stellar_invoice_finance.Tests.Run.{after_call}

abbrev env : Env
env = record { now = 1000; self = 40; auth = λ a. true }

abbrev late : Env
late = record { now = 9000; self = 40; auth = λ a. true }

abbrev ready : InvoiceNft
unfolding initialize
ready = after_call fresh (initialize env 1 2 fresh)

abbrev wired : InvoiceNft
unfolding initialize set_authorized_callers
wired = after_call ready (set_authorized_callers env 1 20 30 ready)

-- A host that answers that a record of the new schema is none of the old.
abbrev no_v1 : Decoder
no_v1 i = ok none

no_v1-IsStrict : IsStrict no_v1
no_v1-IsStrict i v h = absurd (ground (arith, h))

wired-Deployed : Deployed no_v1 wired
unfolding initialize set_authorized_callers
wired-Deployed =
    deployed env 1 2 ready refl (next here (Step.set_authorized_callers env 1 20 30 refl))

abbrev minted : InvoiceNft
unfolding initialize set_authorized_callers mint_invoice
minted =
    after_call wired
      (mint_invoice env ac rr 10 (1 ∷ 2 ∷ []) (pos 500) 7 5000 (9 ∷ []) 12 none wired)

abbrev committed : InvoiceNft
unfolding initialize set_authorized_callers mint_invoice commit_metadata_hash
committed = after_call minted (commit_metadata_hash env ac 10 1 (3 ∷ []) minted)

abbrev on_market : InvoiceNft
unfolding initialize set_authorized_callers mint_invoice commit_metadata_hash set_listed
on_market = after_call committed (set_listed env ac 20 1 committed)

abbrev paid_out : InvoiceNft
unfolding initialize set_authorized_callers mint_invoice commit_metadata_hash set_listed set_funded
paid_out = after_call on_market (set_funded env ac 30 1 on_market)

on_market-Deployed : Deployed no_v1 on_market
unfolding initialize set_authorized_callers mint_invoice commit_metadata_hash set_listed
on_market-Deployed = deployed env 1 2 ready refl (
    next
      (next
        (next (next here (Step.set_authorized_callers env 1 20 30 refl))
          (Step.mint_invoice env ac rr 10 (1 ∷ 2 ∷ []) (pos 500) 7 5000 (9 ∷ []) 12 none 1 refl))
        (Step.commit_metadata_hash env ac 10 1 (3 ∷ []) refl))
      (Step.set_listed env ac 20 1 refl))

too_early : set_defaulted env 1 1 paid_out ≡ err invalid_invoice_status
unfolding initialize set_authorized_callers mint_invoice commit_metadata_hash set_listed set_funded
    set_defaulted
too_early = refl

Step-Edge_example : Edge 1 (next_id on_market) (on_market.invoice 1) (paid_out.invoice 1)
unfolding initialize set_authorized_callers mint_invoice commit_metadata_hash set_listed set_funded
Step-Edge_example =
    Step-Edge {decode = no_v1} {s = on_market} {s' = paid_out} no_v1-IsStrict
      (Step.set_funded env ac 30 1 refl) 1

abbrev listed_invoice : Invoice
listed_invoice = record {
  id = 1;
  sme = 10;
  debtor_hash = 1 ∷ 2 ∷ [];
  amount = pos 500;
  currency = 7;
  due_date = 5000;
  ipfs_cid = 9 ∷ [];
  metadata_hash = 3 ∷ [];
  risk_score = 12;
  risk_tier = RiskTier.aaa;
  status = InvoiceStatus.listed;
  created_at = 1000;
  funded_at = none;
  repaid_at = none;
  notes = none;
}

listed_invoice_is_fixed_example :
    (j : Invoice) × (paid_out.invoice 1 ≡ some (current j)) × IsLater listed_invoice j
unfolding initialize set_authorized_callers mint_invoice commit_metadata_hash set_listed set_funded
    from_score
listed_invoice_is_fixed_example =
    listed_invoice_is_fixed no_v1 on_market paid_out 1 listed_invoice no_v1-IsStrict
      on_market-Deployed (next here (Step.set_funded env ac 30 1 refl)) refl (λ e. cc e)

stored_invoice-IsGood_example : IsGood 1 listed_invoice × (1 < next_id on_market)
unfolding initialize set_authorized_callers mint_invoice commit_metadata_hash set_listed from_score
stored_invoice-IsGood_example =
    stored_invoice-IsGood no_v1 on_market 1 listed_invoice no_v1-IsStrict on_market-Deployed refl

metadata_hash_is_final_example : KeepsHash (3 ∷ []) (paid_out.invoice 1)
unfolding initialize set_authorized_callers mint_invoice commit_metadata_hash set_listed set_funded
    from_score
metadata_hash_is_final_example =
    metadata_hash_is_final no_v1 on_market paid_out 1 listed_invoice no_v1-IsStrict
      on_market-Deployed (next here (Step.set_funded env ac 30 1 refl)) refl (omega arith)

mint_invoice_is_fresh_example :
    (wired.invoice 1 ≡ none)
    × ((i : Invoice) × (minted.invoice 1 ≡ some (current i))
        × (i.sme ≡ 10)
        × (i.amount ≡ pos 500)
        × (i.status ≡ InvoiceStatus.created))
    × (next_id minted ≡ 1 + 1)
    × (minted.invoice 2 ≡ wired.invoice 2)
unfolding initialize set_authorized_callers mint_invoice
mint_invoice_is_fresh_example =
    mint_invoice_is_fresh env ac rr 10 (1 ∷ 2 ∷ []) (pos 500) 7 5000 (9 ∷ []) 12 none 1 2 wired
      minted no_v1 no_v1-IsStrict wired-Deployed refl (omega arith)

exposure_never_grows_example :
    (get_outstanding_exposure minted 10 ≡ get_outstanding_exposure wired 10)
    × (get_outstanding_exposure wired 10 ≤ℤ pos 0)
unfolding initialize set_authorized_callers mint_invoice
exposure_never_grows_example =
    exposure_never_grows env ac rr 10 (1 ∷ 2 ∷ []) (pos 500) 7 5000 (9 ∷ []) 12 none 1 10 wired
      minted no_v1 no_v1-IsStrict wired-Deployed refl

-- One record of the old schema, of the contract's first version.
abbrev legacy : InvoiceNft
legacy = record fresh {
  admin = some 1;
  next_invoice_id = some 2;
  migration_version = some 1;
  invoice = λ n.
      if leb 1 n && leb n 1
      then some (
          old (record {
            id = 1;
            sme = 10;
            debtor_hash = 1 ∷ [];
            amount = pos 500;
            currency = 7;
            due_date = 5000;
            ipfs_cid = 9 ∷ [];
            risk_score = 12;
            risk_tier = RiskTier.aaa;
            status = InvoiceStatus.listed;
            created_at = 1000;
            funded_at = none;
            repaid_at = none;
          }))
      else none;
}

-- A host that traps on a record of the new schema.
abbrev traps : Decoder
traps i = panic

legacy-IsAged : (m : ℕ) → 1 ≤ m → m < next_id legacy → IsAged (legacy.invoice m)
legacy-IsAged m k l = let one : m ≡ 1 = omega (arith, k, l) in rw one tt

migrate_renews_example :
    (s' : InvoiceNft) × (migrate traps env 1 legacy ≡ ok (tt, s'))
    × (s'.invoice 1 ≡ (
        if leb 1 1 && ltb 1 (next_id legacy) then renewed (legacy.invoice 1) else legacy.invoice 1))
    × (s'.migration_version ≡ some 2)
    × (migrate traps late 1 s' ≡ ok (tt, s'))
migrate_renews_example =
    migrate_renews traps env late 1 1 legacy refl refl refl (omega arith) legacy-IsAged
