-- ===== src/Tests/PoolLife.antt =====
-- The life of a pool of contracts/financing_pool/src/lib.rs: it is opened for the invoice 1 of 500,
-- the investor 60 gets a position, and the SME 10 repays it; and samples of IPFS identifiers.
use stellar_invoice_finance.Prelude.{
  ◌≡◌, ◌+ℤ◌, ◌-ℤ◌, ◌*ℤ◌, ◌/ℤ◌, ◌↔◌, ◌⊎◌, true, false, none, some, [], ◌∷◌, refl, pos, update,
  checked, saturate,
}
use stellar_invoice_finance.Shared.{Env, Invoice, InvoiceStatus, RiskTier, Pool, ok, Bytes}
use stellar_invoice_finance.Shared.Token.{Tokens}
use stellar_invoice_finance.Shared.Cid.{
  require_valid_ipfs_cid, require_valid_ipfs_cid_lem, IsV0, IsV1,
}
use stellar_invoice_finance.Shared.Validation.{
  bps_of_normalized, scale_bps, normalize_amount, denormalize_amount, bps_of,
}
use stellar_invoice_finance.AccessControl.State as AccessState
use stellar_invoice_finance.InvoiceNft.State.{current}
use stellar_invoice_finance.InvoiceNft.State as NftState
use stellar_invoice_finance.InvoiceNft.Lifecycle.{set_funded, set_repaid}
use stellar_invoice_finance.RiskRegistry.State as RiskState
use stellar_invoice_finance.PriceOracle
use stellar_invoice_finance.PriceOracle.{convert}
use stellar_invoice_finance.FinancingPool.State.{FinancingPool, World, fresh, convert_if_needed}
use stellar_invoice_finance.FinancingPool.Admin.{initialize}
use stellar_invoice_finance.FinancingPool.Yield.{pay_position, pay_positions, distribute_yield}
use stellar_invoice_finance.FinancingPool.Positions.{
  record_position, store_position, share_of, aggregate_after,
}
use stellar_invoice_finance.FinancingPool.Repayment.{
  release_funds, repay, receive_payment, with_penalty, credit, settle,
}
use stellar_invoice_finance.FinancingPool.Ledger.{ledger}
use stellar_invoice_finance.FinancingPool.Life.{IsLedger}
use stellar_invoice_finance.FinancingPool.Invariant.{Reach-IsLedger, closed_pool_is_final}
use stellar_invoice_finance.FinancingPool.Steps.{Call, Step, Steps, Reach}
use stellar_invoice_finance.Tests.Run.{after_call}

abbrev env : Env
env = record { now = 2000; self = 40; auth = λ a. true }

abbrev tokens : Tokens
tokens = record { decimals = λ a. 7; balance = λ done t a. pos 0; accepts = λ done t. true }

abbrev invoice : Invoice
invoice = record {
  id = 1;
  sme = 10;
  debtor_hash = 1 ∷ 2 ∷ [];
  amount = pos 500;
  currency = 7;
  due_date = 5000;
  ipfs_cid = 9 ∷ [];
  metadata_hash = 3 ∷ [];
  risk_score = 12;
  risk_tier = RiskTier.aaa;
  status = InvoiceStatus.listed;
  created_at = 1000;
  funded_at = none;
  repaid_at = none;
  notes = none;
}

abbrev empty_world : World
empty_world = record {
  financing = fresh;
  nft = record NftState.fresh {
    access_control = some 3;
    financing_pool = some 40;
    invoice = update NftState.fresh.invoice 1 (some (current invoice));
  };
  risk = RiskState.fresh;
}

abbrev with_pool : World → FinancingPool → World
with_pool w s = record w { financing = s }

abbrev deployed : World
deployed = with_pool empty_world (after_call fresh (initialize env 1 2 4 30 3 1000 9 5000 fresh))

abbrev opened : World
opened = after_call deployed (release_funds env AccessState.fresh 50 1 8 deployed)

abbrev held : World
held = with_pool opened (
    after_call opened.financing
      (record_position env AccessState.fresh 1 1 60 (pos 250) (pos 500) opened.financing))

abbrev repaid : World
repaid =
    after_call held (repay env AccessState.fresh PriceOracle.fresh 7 tokens 10 1 8 (pos 500) held)

initialize_ok : initialize env 1 2 4 30 3 1000 9 5000 fresh ≡ ok (tt, deployed.financing)
unfolding initialize
initialize_ok = refl

release_ok : release_funds env AccessState.fresh 50 1 8 deployed ≡ ok (tt, opened)
unfolding initialize release_funds set_funded
release_ok = refl

record_ok :
    record_position env AccessState.fresh 1 1 60 (pos 250) (pos 500) opened.financing
    ≡ ok (tt, held.financing)
unfolding initialize release_funds set_funded record_position store_position share_of
    aggregate_after checked ◌*ℤ◌ ◌/ℤ◌ ◌-ℤ◌ ◌+ℤ◌
record_ok = refl

repay_ok :
    repay env AccessState.fresh PriceOracle.fresh 7 tokens 10 1 8 (pos 500) held ≡ ok (tt, repaid)
unfolding initialize release_funds set_funded record_position store_position share_of
    aggregate_after checked ◌*ℤ◌ ◌/ℤ◌ ◌-ℤ◌ ◌+ℤ◌ repay receive_payment convert_if_needed convert
    with_penalty credit settle set_repaid bps_of distribute_yield pay_positions pay_position
    bps_of_normalized scale_bps normalize_amount denormalize_amount saturate
repay_ok = refl

repaid-Reach : Reach repaid
repaid-Reach =
    Reach.next held repaid
      (Reach.next opened held
        (Reach.next deployed opened
          (Reach.next empty_world deployed (Reach.deployed empty_world refl)
            (Step.call (Call.initialize env 1 2 4 30 3 1000 9 5000 initialize_ok)))
          (Step.release_funds env AccessState.fresh 50 1 8 release_ok))
        (Step.call
          (Call.record_position env AccessState.fresh 1 1 60 (pos 250) (pos 500) record_ok)))
      (Step.repay env AccessState.fresh PriceOracle.fresh 7 tokens 10 1 8 (pos 500) repay_ok)

abbrev repaid_pool : Pool
repaid_pool = record {
  invoice_id = 1;
  token = 8;
  total_funded = pos 0;
  face_value = pos 500;
  repaid_amount = pos 500;
  is_closed = true;
  late_penalty_bps = 1000;
  total_owed = pos 500;
  penalty_applied = false;
}

repaid_pool_is : repaid.financing.pool 1 ≡ some repaid_pool
unfolding initialize release_funds set_funded record_position store_position share_of
    aggregate_after checked ◌*ℤ◌ ◌/ℤ◌ ◌-ℤ◌ ◌+ℤ◌ repay receive_payment convert_if_needed convert
    with_penalty credit settle set_repaid bps_of distribute_yield pay_positions pay_position
    bps_of_normalized scale_bps normalize_amount denormalize_amount saturate
repaid_pool_is = refl

Reach-IsLedger_example : IsLedger (ledger repaid.financing)
Reach-IsLedger_example = Reach-IsLedger repaid repaid-Reach

closed_pool_is_final_example :
    (repaid.financing.pool 1 ≡ some repaid_pool)
    × ¬ (
        repay env AccessState.fresh PriceOracle.fresh 7 tokens 10 1 8 (pos 1) repaid
        ≡ ok (tt, repaid))
closed_pool_is_final_example =
    closed_pool_is_final repaid repaid 1 repaid_pool repaid-Reach repaid_pool_is refl Steps.here env
      AccessState.fresh PriceOracle.fresh 7 tokens 10 8 (pos 1) repaid

-- "bafybeigdy"
abbrev sample_cid : Bytes
sample_cid = 98 ∷ 97 ∷ 102 ∷ 121 ∷ 98 ∷ 101 ∷ 105 ∷ 103 ∷ 100 ∷ 121 ∷ []

require_valid_ipfs_cid_lem_example :
    (require_valid_ipfs_cid sample_cid ≡ ok tt) ↔ (IsV0 sample_cid ⊎ IsV1 sample_cid)
require_valid_ipfs_cid_lem_example = require_valid_ipfs_cid_lem sample_cid
