-- ===== src/Tests/Marketplace.antt =====
-- Runs of contracts/marketplace/src/lib.rs: the invoice 1 of 500 is listed by the SME 10 for 400 in
-- the token 8, and funded by 60 and 61, through the marketplace 50, the pool 40 and the treasury 30.
use stellar_invoice_finance.Prelude.{
  ◌≡◌, ◌+ℤ◌, ◌-ℤ◌, ◌*ℤ◌, ◌/ℤ◌, true, none, some, [], ◌∷◌, refl, pos, update, checked,
}
use stellar_invoice_finance.Shared.{Env, Invoice, InvoiceStatus, RiskTier, ok}
use stellar_invoice_finance.Shared.Token.{Tokens}
use stellar_invoice_finance.Shared.Validation.{
  bps_of_normalized, scale_bps, normalize_amount, denormalize_amount,
}
use stellar_invoice_finance.AccessControl.State as AccessState
use stellar_invoice_finance.InvoiceNft.State.{InvoiceNft, current}
use stellar_invoice_finance.InvoiceNft.State as NftState
use stellar_invoice_finance.InvoiceNft.Lifecycle.{set_listed, set_funded}
use stellar_invoice_finance.RiskRegistry.State as RiskState
use stellar_invoice_finance.RiskRegistry.State.{is_compliance_attested}
use stellar_invoice_finance.Treasury.State as TreasuryState
use stellar_invoice_finance.Treasury.State.{get_collected}
use stellar_invoice_finance.Treasury.Admin.{collect_fee}
use stellar_invoice_finance.FinancingPool.State as PoolState
use stellar_invoice_finance.FinancingPool.Repayment.{release_funds}
use stellar_invoice_finance.Marketplace.State.{Marketplace, World, fresh, load_config}
use stellar_invoice_finance.Marketplace.Admin
use stellar_invoice_finance.Marketplace.Listings
use stellar_invoice_finance.Marketplace.Funding
use stellar_invoice_finance.Marketplace.Book.{Change, book}
use stellar_invoice_finance.Marketplace.Steps.{Call, Step, Reach}
use stellar_invoice_finance.Marketplace.Refinement.{Step-Change}
use stellar_invoice_finance.Marketplace.Invariant.{IsBook, Reach-IsBook}
use stellar_invoice_finance.Tests.Run.{after_call}

abbrev pub env : Env
env = record { now = 2000; self = 50; auth = λ a. true }

abbrev pub tokens : Tokens
tokens = record { decimals = λ a. 7; balance = λ done t a. pos 0; accepts = λ done t. true }

abbrev pub invoice : Invoice
invoice = record {
  id = 1;
  sme = 10;
  debtor_hash = 1 ∷ 2 ∷ [];
  amount = pos 500;
  currency = 7;
  due_date = 9000;
  ipfs_cid = 9 ∷ [];
  metadata_hash = 3 ∷ [];
  risk_score = 12;
  risk_tier = RiskTier.aaa;
  status = InvoiceStatus.created;
  created_at = 1000;
  funded_at = none;
  repaid_at = none;
  notes = none;
}

abbrev empty_world : World
empty_world = record {
  market = fresh;
  pools = record {
    financing = record PoolState.fresh {
      access_control = some 3;
      invoice_nft = some 2;
      late_penalty_bps = some 1000;
    };
    nft = record NftState.fresh {
      access_control = some 3;
      marketplace = some 50;
      financing_pool = some 40;
      invoice = update NftState.fresh.invoice 1 (some (current invoice));
    };
    risk = record RiskState.fresh {
      sme_profile = λ a. some (record {
        address = 10;
        verified = true;
        verifier = 4;
        risk_score = 12;
        total_invoices = 1;
        defaults = 0;
        registered_at = 0;
        compliance_attested = true;
        credit_limit = pos 0;
      });
    };
  };
  vault = record TreasuryState.fresh { whitelisted_token = λ t. some true };
}

abbrev pub with_market : Marketplace → World
with_market s = record empty_world { market = s }

abbrev deployed : World
deployed = with_market (after_call fresh (Admin.initialize 1 2 40 30 3 4 200 fresh))

abbrev pub ready : World
ready = with_market (after_call fresh (Admin.whitelist_token env 1 8 deployed.market))

abbrev pub listed : World
listed =
    after_call ready
      (Listings.list_invoice env AccessState.fresh 10 1 (pos 400) (pos 500) 8 5000 none ready)

abbrev pub funded : World
funded = after_call listed (Funding.fund_invoice env AccessState.fresh tokens 60 1 (pos 100) listed)

abbrev pub full : World
full = after_call funded (Funding.fund_invoice env AccessState.fresh tokens 61 1 (pos 300) funded)

initialize_ok : Admin.initialize 1 2 40 30 3 4 200 fresh ≡ ok (tt, deployed.market)
unfolding Admin.initialize
initialize_ok = refl

whitelist_ok : Admin.whitelist_token env 1 8 deployed.market ≡ ok (tt, ready.market)
unfolding Admin.initialize Admin.whitelist_token load_config
whitelist_ok = refl

pub list_ok :
    Listings.list_invoice env AccessState.fresh 10 1 (pos 400) (pos 500) 8 5000 none ready
    ≡ ok (tt, listed)
unfolding Admin.initialize Admin.whitelist_token load_config Listings.list_invoice Listings.enlist
    Listings.enter_listing Listings.save_referrer set_listed
list_ok = refl

pub fund_ok :
    Funding.fund_invoice env AccessState.fresh tokens 60 1 (pos 100) listed ≡ ok (tt, funded)
unfolding Admin.initialize Admin.whitelist_token load_config Listings.list_invoice Listings.enlist
    Listings.enter_listing Listings.save_referrer set_listed Funding.fund_invoice
    Funding.load_open_listing Funding.contribute Funding.split_fee Funding.take_funding
    Funding.pay_fee Funding.pay_net Funding.record_funding Funding.open_pool collect_fee
    bps_of_normalized scale_bps normalize_amount denormalize_amount checked ◌+ℤ◌ ◌-ℤ◌ ◌*ℤ◌ ◌/ℤ◌
fund_ok = refl

pub complete_ok :
    Funding.fund_invoice env AccessState.fresh tokens 61 1 (pos 300) funded ≡ ok (tt, full)
unfolding Admin.initialize Admin.whitelist_token load_config Listings.list_invoice Listings.enlist
    Listings.enter_listing Listings.save_referrer set_listed Funding.fund_invoice
    Funding.load_open_listing Funding.contribute Funding.split_fee Funding.take_funding
    Funding.pay_fee Funding.pay_net Funding.record_funding Funding.open_pool collect_fee
    bps_of_normalized scale_bps normalize_amount denormalize_amount checked ◌+ℤ◌ ◌-ℤ◌ ◌*ℤ◌ ◌/ℤ◌
    release_funds set_funded
complete_ok = refl

pub listed-Reach : Reach listed
listed-Reach =
    Reach.next ready listed
      (Reach.next deployed ready
        (Reach.next empty_world deployed (Reach.deployed empty_world refl)
          (Step.call (Call.initialize 1 2 40 30 3 4 200 initialize_ok)))
        (Step.call (Call.whitelist_token env 1 8 whitelist_ok)))
      (Step.list_invoice env AccessState.fresh 10 1 (pos 400) (pos 500) 8 5000 none list_ok)

funded-Reach : Reach funded
funded-Reach =
    Reach.next listed funded listed-Reach
      (Step.fund_invoice env AccessState.fresh tokens 60 1 (pos 100) fund_ok)

Step-Change_example : Change 2000 (book listed.market) (book funded.market)
Step-Change_example =
    Step-Change listed funded
      (Step.fund_invoice env AccessState.fresh tokens 60 1 (pos 100) fund_ok)

Reach-IsBook_example : IsBook (book funded.market)
Reach-IsBook_example = Reach-IsBook funded funded-Reach
