-- ===== src/FinancingPool/Ledger.antt =====
-- What the calls of contracts/financing_pool/src/lib.rs leave of the pools, the buyout offers and
-- the penalty rate.
use stellar_invoice_finance.Prelude.{
  ℕ, ◌≤◌, ◌≡◌, arith, Option, none, some, ℤ, pos, ◌≤ℤ◌, update, Option-some, ap, get_or, lookup, [],
}
use stellar_invoice_finance.Shared.{Env, Address, Hash, Pool, Position, EarlySettlementOffer, ok}
use stellar_invoice_finance.Shared.Token.{Tokens}
use stellar_invoice_finance.AccessControl.State.{AccessControl}
use stellar_invoice_finance.InvoiceNft.State.{InvoiceNft}
use stellar_invoice_finance.FinancingPool.State.{FinancingPool, load_positions}
use stellar_invoice_finance.FinancingPool.Admin
use stellar_invoice_finance.FinancingPool.Positions
use stellar_invoice_finance.FinancingPool.Market
use stellar_invoice_finance.FinancingPool.Settlement
use stellar_invoice_finance.InvoiceNft.Effects.{Slot, slot}
use stellar_invoice_finance.FinancingPool.Shares.{buy_position-eq_ok}

pub record Ledger : Type 0 where
  pub pool : ℕ → Option Pool
  pub offer : ℕ → Option EarlySettlementOffer
  pub penalty : Option ℕ

abbrev pub ledger : FinancingPool → Ledger
ledger s = record { pool = s.pool; offer = s.early_settlement; penalty = s.late_penalty_bps }

pub initialize-ledger :
    (env : Env) (a n r t ac : Address) (late : ℕ) (po : Address) (limit : ℕ) (s s' : FinancingPool)
    → Admin.initialize env a n r t ac late po limit s ≡ ok (tt, s')
    → (late ≤ 10000) × (ledger s' ≡ record (ledger s) { penalty = some late })
unfolding Admin.initialize
initialize-ledger env a n r t ac late po limit s s' h = (ground (arith, h), ground (arith, h))

pub set_max_position_bps-ledger :
    (env : Env) (a : Address) (n : ℕ) (s s' : FinancingPool)
    → Admin.set_max_position_bps env a n s ≡ ok (tt, s')
    → ledger s' ≡ ledger s
unfolding Admin.set_max_position_bps
set_max_position_bps-ledger env a n s s' h = ground (arith, h)

pub propose_upgrade-ledger :
    (env : Env) (a : Address) (x : Hash) (s s' : FinancingPool)
    → Admin.propose_upgrade env a x s ≡ ok (tt, s')
    → ledger s' ≡ ledger s
unfolding Admin.propose_upgrade
propose_upgrade-ledger env a x s s' h = ground (arith, h)

pub execute_upgrade-ledger :
    (env : Env) (a : Address) (s s' : FinancingPool)
    → Admin.execute_upgrade env a s ≡ ok (tt, s')
    → ledger s' ≡ ledger s
unfolding Admin.execute_upgrade
execute_upgrade-ledger env a s s' h =
    let ((x, t), e) = Option-some s.upgrade_proposal (λ z. ground (arith, h, z)) in
    ground (arith, h, e)

store_position-ledger :
    (id : ℕ) (p : Position) (s s' : FinancingPool)
    → Positions.store_position id p s ≡ ok (tt, s')
    → ledger s' ≡ ledger s
unfolding Positions.store_position
store_position-ledger id p s s' h =
    let (pool, e) = Option-some (s.pool id) (λ z. ground (arith, h, z)) in
    let (n, f) =
      Option-some
        (Positions.aggregate_after (get_or (s.aggregate_funded pool.token) (pos 0))
          (Positions.contributed_by (lookup p.investor (load_positions s id))) p.contributed)
        (λ z. ground (arith, h, e, z)) in
    ground (arith, h, e, f)

pub record_position-ledger :
    (env : Env) (ac : AccessControl) (caller : Address) (id : ℕ) (investor : Address) (c t : ℤ)
    (s s' : FinancingPool)
    → Positions.record_position env ac caller id investor c t s ≡ ok (tt, s')
    → ledger s' ≡ ledger s
unfolding Positions.record_position
record_position-ledger env ac caller id investor c t s s' h =
    let (share, e) = Option-some (Positions.share_of c t) (λ z. ground (arith, h, z)) in
    let p : Position = record {
      investor = investor;
      invoice_id = id;
      contributed = c;
      share_bps = Positions.as_u32 share;
      yield_claimed = pos 0;
    } in
    let stored : Positions.store_position id p s ≡ ok (tt, s') = ground (arith, h, e) in
    store_position-ledger id p s s' stored

pub list_position_for_sale-ledger :
    (env : Env) (ac : AccessControl) (seller : Address) (id : ℕ) (token : Address) (price : ℤ)
    (s s' : FinancingPool)
    → Market.list_position_for_sale env ac seller id token price s ≡ ok (tt, s')
    → ledger s' ≡ ledger s
unfolding Market.list_position_for_sale
list_position_for_sale-ledger env ac seller id token price s s' h =
    let (pool, e) = Option-some (s.pool id) (λ z. ground (arith, h, z)) in ground (arith, h, e)

pub buy_position-ledger :
    (env : Env) (ac : AccessControl) (tokens : Tokens) (buyer : Address) (id : ℕ) (seller : Address)
    (s s' : FinancingPool)
    → Market.buy_position env ac tokens buyer id seller s ≡ ok (tt, s')
    → ledger s' ≡ ledger s
buy_position-ledger env ac tokens buyer id seller s s' h =
    let (offer, pool, p, auth, running, listed, there, free, held, e) =
      buy_position-eq_ok env ac tokens buyer id seller s s' h in
    ap ledger e

pub propose_early_settlement-ledger :
    (env : Env) (ac : AccessControl) (nft : InvoiceNft) (tokens : Tokens) (sme : Address) (id : ℕ)
    (amount : ℤ) (s s' : FinancingPool)
    → Settlement.propose_early_settlement env ac nft tokens sme id amount s ≡ ok (tt, s')
    → (o : EarlySettlementOffer) × (pos 1 ≤ℤ o.amount)
      × (ledger s' ≡ record (ledger s) { offer = update s.early_settlement id (some o) })
unfolding Settlement.propose_early_settlement
propose_early_settlement-ledger env ac nft tokens sme id amount s s' h =
    let (pool, e) = Option-some (s.pool id) (λ z. ground (arith, h, z)) in
    elim (slot (nft.invoice id)) [
      | Slot.empty k ↦ absurd (ground (arith, h, e, k))
      | Slot.stale i k ↦ absurd (ground (arith, h, e, k))
      | Slot.holds i k ↦ (
        record { invoice_id = id; amount = amount; accepted_bps = 0; accepted = [] },
        ground (arith, h),
        ground (arith, h, e, k),
      )
    ]

pub cancel_early_settlement-ledger :
    (env : Env) (nft : InvoiceNft) (tokens : Tokens) (sme : Address) (id : ℕ) (s s' : FinancingPool)
    → Settlement.cancel_early_settlement env nft tokens sme id s ≡ ok (tt, s')
    → ledger s' ≡ record (ledger s) { offer = update s.early_settlement id none }
unfolding Settlement.cancel_early_settlement
cancel_early_settlement-ledger env nft tokens sme id s s' h =
    let (offer, f) = Option-some (s.early_settlement id) (λ z. ground (arith, h, z)) in
    let (pool, e) = Option-some (s.pool id) (λ z. ground (arith, h, f, z)) in
    elim (slot (nft.invoice id)) [
      | Slot.empty k ↦ absurd (ground (arith, h, f, e, k))
      | Slot.stale i k ↦ absurd (ground (arith, h, f, e, k))
      | Slot.holds i k ↦ ground (arith, h, f, e, k)
    ]
