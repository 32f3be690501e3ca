-- ===== src/Tests/FinancingPool.antt =====
-- Runs of contracts/financing_pool/src/lib.rs: an invoice of 500 for the SME 10, funded by 60 and 61
-- in the pool at address 40.
use stellar_invoice_finance.Prelude.{
  ◌≡◌, ◌≤◌, ◌+◌, ◌*◌, ◌/◌, ◌⊎◌, ◌||◌, ◌&&◌, ◌++◌, ◌-ℤ◌, ◌+ℤ◌, ℕ, true, false, none, some, [], ◌∷◌,
  List, refl, arith, pos, ltb, leb_ℤ, take, drop, length, lookup, update, Map, checked, ◌*ℤ◌, ◌/ℤ◌,
  saturate, if◌then◌else◌, ltb_ℤ, ◌==◌,
}
use stellar_invoice_finance.Shared.{
  Env, Address, Invoice, InvoiceStatus, RiskTier, Pool, Position, PositionSaleOffer, ok,
}
use stellar_invoice_finance.Shared.Token.{Tokens, Transfer}
use stellar_invoice_finance.Shared.Validation.{
  bps_of_normalized, scale_bps, normalize_amount, denormalize_amount, bps_of,
}
use stellar_invoice_finance.AccessControl.State as AccessState
use stellar_invoice_finance.InvoiceNft.State.{InvoiceNft, current}
use stellar_invoice_finance.InvoiceNft.State as NftState
use stellar_invoice_finance.InvoiceNft.Lifecycle.{set_repaid}
use stellar_invoice_finance.RiskRegistry.State as RiskState
use stellar_invoice_finance.PriceOracle
use stellar_invoice_finance.FinancingPool.State.{
  FinancingPool, World, fresh, load_positions, get_positions, get_positions_count,
  get_max_position_bps, get_aggregate_funded, convert_if_needed,
}
use stellar_invoice_finance.FinancingPool.Yield.{pay_position, pay_positions, distribute_yield}
use stellar_invoice_finance.FinancingPool.Payouts.{
  payouts, total_amount, total_bps, distribute_yield-le, distribute_yield_pays,
}
use stellar_invoice_finance.FinancingPool.Positions.{
  get_positions_page, min, record_position, store_position, share_of, aggregate_after,
  contributed_by,
}
use stellar_invoice_finance.FinancingPool.Pages.{get_positions_page-eq}
use stellar_invoice_finance.FinancingPool.Market.{buy_position}
use stellar_invoice_finance.FinancingPool.Shares.{
  buy_position_moves_share, record_position-share, moved, share_bps_at,
}
use stellar_invoice_finance.FinancingPool.Repayment.{
  repay, receive_payment, with_penalty, credit, settle,
}
use stellar_invoice_finance.FinancingPool.Owed.{IsPool}
use stellar_invoice_finance.FinancingPool.Repaid.{repay_settles}
use stellar_invoice_finance.FinancingPool.Settlement.{
  propose_early_settlement, cancel_early_settlement,
}
use stellar_invoice_finance.FinancingPool.Buyout.{propose-cancel_early_settlement, escrow}
use stellar_invoice_finance.Tests.Run.{after_call}

abbrev env : Env
env = record { now = 6000; self = 40; auth = λ a. true }

abbrev tokens : Tokens
tokens = record { decimals = λ a. 7; balance = λ done t a. pos 0; accepts = λ done t. true }

abbrev invoice : Invoice
invoice = record {
  id = 1;
  sme = 10;
  debtor_hash = 1 ∷ 2 ∷ [];
  amount = pos 500;
  currency = 7;
  due_date = 5000;
  ipfs_cid = 9 ∷ [];
  metadata_hash = 3 ∷ [];
  risk_score = 12;
  risk_tier = RiskTier.aaa;
  status = InvoiceStatus.funded;
  created_at = 1000;
  funded_at = some 1500;
  repaid_at = none;
  notes = none;
}

abbrev nft : InvoiceNft
nft = record NftState.fresh {
  access_control = some 2;
  financing_pool = some 40;
  invoice = update NftState.fresh.invoice 1 (some (current invoice));
}

abbrev pool : Pool
pool = record {
  invoice_id = 1;
  token = 8;
  total_funded = pos 0;
  face_value = pos 500;
  repaid_amount = pos 0;
  is_closed = false;
  late_penalty_bps = 1000;
  total_owed = pos 500;
  penalty_applied = false;
}

pool-IsPool : IsPool 1 pool
pool-IsPool = record {
  face = 500;
  repaid = 0;
  id_is = refl;
  face_is = refl;
  positive = omega arith;
  penalty_bps = omega arith;
  nothing_funded = refl;
  owed_is = refl;
  repaid_is = refl;
  open_owes = λ e. omega arith;
}

abbrev held : Address → ℕ → ℕ → Position
held investor contributed bps = record {
  investor = investor;
  invoice_id = 1;
  contributed = pos contributed;
  share_bps = bps;
  yield_claimed = pos 0;
}

abbrev holdings : Map Position
holdings = (60, held 60 300 6000) ∷ (61, held 61 200 4000) ∷ []

abbrev offer : PositionSaleOffer
offer = record { seller = 61; invoice_id = 1; token = 8; price = pos 210 }

abbrev open_pool : FinancingPool
open_pool = record fresh {
  admin = some 1;
  invoice_nft = some 3;
  access_control = some 2;
  max_position_bps = some 8000;
  pool = update fresh.pool 1 (some pool);
  positions = update fresh.positions 1 (some holdings);
  sale_offer = λ n a. if a == 61 then some offer else none;
}

abbrev world : World
world = record { financing = open_pool; nft = nft; risk = RiskState.fresh }

abbrev paid : FinancingPool
unfolding distribute_yield pay_positions pay_position bps_of_normalized scale_bps normalize_amount
    denormalize_amount checked ◌*ℤ◌ ◌/ℤ◌ ◌-ℤ◌ saturate ◌+ℤ◌
paid = after_call open_pool (distribute_yield env tokens 1 8 (pos 555) open_pool)

distribute_yield-le_example :
    (ts : List Transfer) × (paid.transfers ≡ open_pool.transfers ++ ts)
    × (length ts ≡ get_positions_count open_pool 1)
    × (total_amount ts ≤ 555)
unfolding distribute_yield pay_positions pay_position bps_of_normalized scale_bps normalize_amount
    denormalize_amount checked ◌*ℤ◌ ◌/ℤ◌ ◌-ℤ◌ saturate ◌+ℤ◌
distribute_yield-le_example =
    distribute_yield-le env tokens 1 8 555 open_pool paid refl (omega arith)

distribute_yield_pays_example :
    (paid.transfers
      ≡ open_pool.transfers ++ payouts 8 40 (λ bps. 555 * bps / 10000) (load_positions open_pool 1))
    × (paid.positions ≡ open_pool.positions)
    × (paid.pool ≡ open_pool.pool)
unfolding distribute_yield pay_positions pay_position bps_of_normalized scale_bps normalize_amount
    denormalize_amount checked ◌*ℤ◌ ◌/ℤ◌ ◌-ℤ◌ saturate ◌+ℤ◌
distribute_yield_pays_example =
    distribute_yield_pays env tokens 1 8 555 open_pool paid refl (omega arith)

get_positions_page-eq_example :
    get_positions_page open_pool 1 1 5 ≡ ok (take (min 5 100) (drop 1 (get_positions open_pool 1)))
get_positions_page-eq_example = get_positions_page-eq open_pool 1 1 5

abbrev sold : FinancingPool
unfolding buy_position
sold = after_call open_pool (buy_position env AccessState.fresh tokens 62 1 61 open_pool)

buy_position_moves_share_example :
    (o : PositionSaleOffer) × (p : Position) × (open_pool.sale_offer 1 61 ≡ some o)
    × (lookup 61 (load_positions open_pool 1) ≡ some p)
    × (lookup 62 (load_positions sold 1) ≡ some (moved 62 1 p))
    × (lookup 61 (load_positions sold 1) ≡ none)
    × (total_bps (load_positions sold 1) + share_bps_at (lookup 62 (load_positions open_pool 1))
        ≡ total_bps (load_positions open_pool 1))
    × (sold.sale_offer 1 61 ≡ none)
    × (sold.transfers
        ≡ open_pool.transfers
          ++ record { token = o.token; from = 62; to = 61; amount = o.price } ∷ [])
unfolding buy_position
buy_position_moves_share_example =
    buy_position_moves_share env AccessState.fresh tokens 62 1 61 open_pool sold refl
      ((omega arith, tt), (tt, tt)) (omega arith)

abbrev joined : FinancingPool
unfolding record_position store_position share_of aggregate_after checked ◌*ℤ◌ ◌/ℤ◌ ◌-ℤ◌ ◌+ℤ◌
joined =
    after_call open_pool (record_position env AccessState.fresh 1 1 62 (pos 50) (pos 500) open_pool)

record_position-share_example :
    (p : Position) × (q : Pool) × (lookup 62 (load_positions joined 1) ≡ some p)
    × (p.contributed ≡ pos 50)
    × (p.share_bps ≡ 50 * 10000 / 500)
    × (p.share_bps ≤ get_max_position_bps open_pool)
    × (p.share_bps ≤ 10000)
    × (lookup 60 (load_positions joined 1) ≡ lookup 60 (load_positions open_pool 1))
    × (total_bps (load_positions joined 1) + share_bps_at (lookup 62 (load_positions open_pool 1))
        ≡ total_bps (load_positions open_pool 1) + p.share_bps)
    × (open_pool.pool 1 ≡ some q)
    × (get_aggregate_funded joined q.token
        ≡ get_aggregate_funded open_pool q.token
          -ℤ contributed_by (lookup 62 (load_positions open_pool 1))
          +ℤ pos 50)
unfolding record_position store_position share_of aggregate_after checked ◌*ℤ◌ ◌/ℤ◌ ◌-ℤ◌ ◌+ℤ◌
record_position-share_example =
    record_position-share env AccessState.fresh 1 1 62 60 50 500 open_pool joined refl
      ((omega arith, tt), (tt, tt)) (omega arith)

-- A payment of all that is owed, 500 and the penalty of 50.
abbrev settled : World
unfolding repay receive_payment convert_if_needed with_penalty credit settle set_repaid bps_of
    distribute_yield pay_positions pay_position bps_of_normalized scale_bps normalize_amount
    denormalize_amount checked ◌*ℤ◌ ◌/ℤ◌ ◌-ℤ◌ saturate ◌+ℤ◌
settled =
    after_call world (repay env AccessState.fresh PriceOracle.fresh 7 tokens 10 1 8 (pos 550) world)

repay_settles_example :
    (i : Invoice) × (q : Pool) × (b : ℕ) × (nft.invoice 1 ≡ some (current i))
    × (settled.financing.pool 1 ≡ some q)
    × IsPool 1 q
    × (1 ≤ b)
    × (convert_if_needed env PriceOracle.fresh 7 (pos 550) i.currency world.financing
        ≡ ok (pos b, world.financing))
    × (q.repaid_amount ≡ pool.repaid_amount +ℤ pos b)
    × (q.penalty_applied ≡ (pool.penalty_applied || (ltb 0 1000 && ltb i.due_date 6000)))
    × (q.is_closed ≡ leb_ℤ q.total_owed q.repaid_amount)
    × (((q.is_closed ≡ true)
          × ((j : Invoice) × (settled.nft.invoice 1 ≡ some (current j))
              × (j.status ≡ InvoiceStatus.repaid)))
        ⊎ ((q.is_closed ≡ false) × (settled.nft ≡ nft)))
unfolding repay receive_payment convert_if_needed with_penalty credit settle set_repaid bps_of
    distribute_yield pay_positions pay_position bps_of_normalized scale_bps normalize_amount
    denormalize_amount checked ◌*ℤ◌ ◌/ℤ◌ ◌-ℤ◌ saturate ◌+ℤ◌
repay_settles_example =
    repay_settles env AccessState.fresh PriceOracle.fresh 7 tokens 10 1 8 (pos 550) pool world
      settled refl refl pool-IsPool

abbrev offered : FinancingPool
unfolding propose_early_settlement
offered =
    after_call open_pool
      (propose_early_settlement env AccessState.fresh nft tokens 10 1 (pos 450) open_pool)

abbrev withdrawn : FinancingPool
unfolding propose_early_settlement cancel_early_settlement
withdrawn = after_call offered (cancel_early_settlement env nft tokens 10 1 offered)

propose-cancel_early_settlement_example :
    (p : Pool) × (i : Invoice) × (open_pool.pool 1 ≡ some p)
    × (p.is_closed ≡ false)
    × (nft.invoice 1 ≡ some (current i))
    × (i.sme ≡ 10)
    × (ltb_ℤ (pos 450) p.total_owed ≡ true)
    × (withdrawn.transfers
        ≡ ([] ++ escrow p.token 10 40 (pos 450) ∷ []) ++ escrow p.token 40 10 (pos 450) ∷ [])
    × (withdrawn.early_settlement 1 ≡ none)
    × (withdrawn.pool ≡ open_pool.pool)
    × (withdrawn.positions ≡ open_pool.positions)
unfolding propose_early_settlement cancel_early_settlement
propose-cancel_early_settlement_example =
    propose-cancel_early_settlement env env AccessState.fresh nft nft tokens 10 1 (pos 450)
      open_pool offered withdrawn refl refl
