-- ===== src/FinancingPool/Shares.antt =====
-- The shares of an invoice's investors, in contracts/financing_pool/src/lib.rs: recording a position
-- and selling one.
use stellar_invoice_finance.Prelude.{
  ℕ, ◌+◌, ◌*◌, ◌/◌, ◌≤◌, ◌≡◌, ◌≢◌, refl, arith, true, false, Option, none, some, ℤ, pos, [], ◌∷◌,
  ◌++◌, lookup, insert, erase, update, weight_at, total-insert, total-erase, IsOrdered,
  erase-IsOrdered, lookup-insert, lookup-erase, ap, sym, ◌∙◌, ◌-ℤ◌, ◌+ℤ◌, Option-some, checked,
  checked_sub, checked-eq_some, checked_mul, checked_div,
}
use native.Mathlib.Nat.{div-le_of_le-mul}
use stellar_invoice_finance.Shared.Validation.Bounds.{checked_mul-eq_some, checked_div-eq_some}
use stellar_invoice_finance.Shared.{Env, Address, ok, Position, Pool, PositionSaleOffer}
use stellar_invoice_finance.Shared.Token.{Tokens}
use stellar_invoice_finance.AccessControl.State.{AccessControl, is_paused}
use stellar_invoice_finance.FinancingPool.State.{
  FinancingPool, load_positions, get_max_position_bps, get_aggregate_funded,
}
use stellar_invoice_finance.FinancingPool.Positions.{
  record_position, contributed_by, share_of, aggregate_after, as_u32, store_position,
}
use stellar_invoice_finance.FinancingPool.Market.{buy_position, set_sale_offer}
use stellar_invoice_finance.FinancingPool.Payouts.{total_bps}

abbrev pub share_bps_at : Option Position → ℕ
share_bps_at = weight_at (λ (p : Position). p.share_bps)

abbrev pub moved : Address → ℕ → Position → Position
moved buyer id p = record {
  investor = buyer;
  invoice_id = id;
  contributed = p.contributed;
  share_bps = p.share_bps;
  yield_claimed = p.yield_claimed;
}

-- What storing a position leaves.
abbrev after_store : ℕ → Position → Address → ℤ → FinancingPool → FinancingPool
after_store id p token agg s = record s {
  positions = update s.positions id (some (insert p.investor p (load_positions s id)));
  aggregate_funded = update s.aggregate_funded token (some agg);
}

abbrev recorded : ℕ → Address → ℕ → ℤ → Position
recorded id investor c share = record {
  investor = investor;
  invoice_id = id;
  contributed = pos c;
  share_bps = as_u32 share;
  yield_claimed = pos 0;
}

-- What a sale leaves.
abbrev pub after_sale :
    ℕ → Address → Address → Position → PositionSaleOffer → FinancingPool → FinancingPool
after_sale id buyer seller p offer s = record s {
  sale_offer = (set_sale_offer id seller none s).sale_offer;
  positions =
      update s.positions id
        (some (insert buyer (moved buyer id p) (erase seller (load_positions s id))));
  transfers =
      s.transfers
      ++ record { token = offer.token; from = buyer; to = seller; amount = offer.price } ∷ [];
}

pub buy_position-eq_ok :
    (env : Env) (ac : AccessControl) (tokens : Tokens) (buyer : Address) (id : ℕ) (seller : Address)
    (s s' : FinancingPool)
    → buy_position env ac tokens buyer id seller s ≡ ok (tt, s')
    → (offer : PositionSaleOffer) × (pool : Pool) × (p : Position) × (env.auth buyer ≡ true)
      × (is_paused ac ≡ false)
      × (s.sale_offer id seller ≡ some offer)
      × (s.pool id ≡ some pool)
      × (pool.is_closed ≡ false)
      × (lookup seller (load_positions s id) ≡ some p)
      × (s' ≡ after_sale id buyer seller p offer s)
unfolding buy_position
buy_position-eq_ok env ac tokens buyer id seller s s' h =
    let (offer, e1) = Option-some (s.sale_offer id seller) (λ e. ground (arith, h, e)) in
    let (pool, e2) = Option-some (s.pool id) (λ e. ground (arith, h, e)) in
    let (p, e3) = Option-some (lookup seller (load_positions s id)) (λ e. ground (arith, h, e)) in
    (
      offer,
      pool,
      p,
      ground arith,
      ground arith,
      e1,
      e2,
      ground arith,
      e3,
      ground (arith, h, e1, e2, e3),
    )

-- A sale to another account than the seller moves the seller's position to the buyer, its
-- contribution and its share unchanged, for the offered price from the buyer to the seller, and removes the offer; the shares of the invoice come
-- to what they were, less the share of a position that the buyer had before, which is lost.
pub buy_position_moves_share :
    (env : Env) (ac : AccessControl) (tokens : Tokens) (buyer : Address) (id : ℕ) (seller : Address)
    (s s' : FinancingPool)
    → buy_position env ac tokens buyer id seller s ≡ ok (tt, s')
    → IsOrdered (load_positions s id)
    → buyer ≢ seller
    → (offer : PositionSaleOffer) × (p : Position) × (s.sale_offer id seller ≡ some offer)
      × (lookup seller (load_positions s id) ≡ some p)
      × (lookup buyer (load_positions s' id) ≡ some (moved buyer id p))
      × (lookup seller (load_positions s' id) ≡ none)
      × (total_bps (load_positions s' id) + share_bps_at (lookup buyer (load_positions s id))
          ≡ total_bps (load_positions s id))
      × (s'.sale_offer id seller ≡ none)
      × (s'.transfers
          ≡ s.transfers
            ++ record { token = offer.token; from = buyer; to = seller; amount = offer.price } ∷ [])
buy_position_moves_share env ac tokens buyer id seller s s' h o ne =
    let m = load_positions s id in
    let (offer, pool, p, by, running, e1, e2, open_pool, e3, e) =
      buy_position-eq_ok env ac tokens buyer id seller s s' h in
    let q = moved buyer id p in
    let rest = erase-IsOrdered seller m o in
    let bought = total-insert (λ (p : Position). p.share_bps) buyer q (erase seller m) rest in
    let sold = total-erase (λ (p : Position). p.share_bps) seller m o in
    let now : load_positions s' id ≡ insert buyer q (erase seller m) = rw e (ground arith) in
    let kept : lookup buyer (erase seller m) ≡ lookup buyer m =
      lookup-erase buyer seller m ∙ ground arith in
    let before = ap share_bps_at kept in
    let its_share = ap share_bps_at e3 in
    let total_now = ap total_bps now in
    (
      offer,
      p,
      e1,
      e3,
      ap (lookup buyer) now ∙ lookup-insert buyer buyer q (erase seller m) ∙ ground arith,
      ap (lookup seller) now
          ∙ lookup-insert seller buyer q (erase seller m)
          ∙ ground (arith, lookup-erase seller seller m),
      omega (arith, bought, sold, before, its_share, total_now),
      rw e (ground arith),
      rw e refl,
    )

store_position-eq_ok :
    (id : ℕ) (p : Position) (s s' : FinancingPool)
    → store_position id p s ≡ ok (tt, s')
    → (pool : Pool) × (agg : ℤ) × (s.pool id ≡ some pool)
      × (aggregate_after
            (get_aggregate_funded s pool.token)
            (contributed_by (lookup p.investor (load_positions s id)))
            p.contributed
          ≡ some agg)
      × (s' ≡ after_store id p pool.token agg s)
unfolding store_position
store_position-eq_ok id p s s' h =
    let (pool, e1) = Option-some (s.pool id) (λ e. ground (arith, h, e)) in
    let (agg, e2) =
      Option-some
        (aggregate_after (get_aggregate_funded s pool.token)
          (contributed_by (lookup p.investor (load_positions s id))) p.contributed)
        (λ e. ground (arith, h, e1, e)) in
    (pool, agg, e1, e2, ground (arith, h, e1, e2))

record_position-eq_ok :
    (env : Env) (ac : AccessControl) (caller : Address) (id : ℕ) (investor : Address) (c t : ℕ)
    (s s' : FinancingPool)
    → record_position env ac caller id investor (pos c) (pos t) s ≡ ok (tt, s')
    → (share : ℤ) × (1 ≤ c)
      × (c ≤ t)
      × (share_of (pos c) (pos t) ≡ some share)
      × (as_u32 share ≤ get_max_position_bps s)
      × (store_position id (recorded id investor c share) s ≡ ok (tt, s'))
unfolding record_position
record_position-eq_ok env ac caller id investor c t s s' h =
    let (share, e) = Option-some (share_of (pos c) (pos t)) (λ e. ground (arith, h, e)) in
    (share, ground arith, ground arith, e, ground arith, ground (arith, h, e))

share_of-eq_some :
    (c t : ℕ) (share : ℤ)
    → 1 ≤ c
    → c ≤ t
    → share_of (pos c) (pos t) ≡ some share
    → (as_u32 share ≡ c * 10000 / t) × (c * 10000 / t ≤ 10000)
unfolding share_of
share_of-eq_some c t share h k e =
    let (v, e1) = Option-some (checked_mul (pos c) (pos 10000)) (λ x. ground (arith, e, x)) in
    let v' = checked_mul-eq_some c 10000 v e1 in
    let d : checked_div (pos (c * 10000)) (pos t) ≡ some share = ground (arith, e, e1, v') in
    let r = checked_div-eq_some (c * 10000) t share (omega arith) d in
    let most : c * 10000 / t ≤ 10000 = div-le_of_le-mul t (omega arith) in
    (ground (arith, r, most), most)

aggregate_after-eq_some : (a b c r : ℤ) → aggregate_after a b c ≡ some r → r ≡ a -ℤ b +ℤ c
unfolding aggregate_after
aggregate_after-eq_some a b c r h =
    let (v, e) = Option-some (checked_sub a b) (λ x. ground (arith, h, x)) in
    let v' = checked-eq_some (a -ℤ b) v e in
    let h' : checked (v +ℤ c) ≡ some r = ground (arith, h, e) in
    sym (checked-eq_some (v +ℤ c) r h') ∙ ap (λ x. x +ℤ c) (sym v')

-- A position that is recorded has the contribution, and the share `contributed * 10000 / total_pool`
-- rounded down, which is at most the concentration cap and at most 10000; it takes the place of an
-- earlier position of the investor, other investors keep theirs, the shares of the invoice change by
-- the difference, and so does the aggregate of the pool's token by the difference in contribution.
pub record_position-share :
    (env : Env) (ac : AccessControl) (caller : Address) (id : ℕ) (investor other : Address)
    (c t : ℕ) (s s' : FinancingPool)
    → record_position env ac caller id investor (pos c) (pos t) s ≡ ok (tt, s')
    → IsOrdered (load_positions s id)
    → other ≢ investor
    → (p : Position) × (pool : Pool) × (lookup investor (load_positions s' id) ≡ some p)
      × (p.contributed ≡ pos c)
      × (p.share_bps ≡ c * 10000 / t)
      × (p.share_bps ≤ get_max_position_bps s)
      × (p.share_bps ≤ 10000)
      × (lookup other (load_positions s' id) ≡ lookup other (load_positions s id))
      × (total_bps (load_positions s' id) + share_bps_at (lookup investor (load_positions s id))
          ≡ total_bps (load_positions s id) + p.share_bps)
      × (s.pool id ≡ some pool)
      × (get_aggregate_funded s' pool.token
          ≡ get_aggregate_funded s pool.token
            -ℤ contributed_by (lookup investor (load_positions s id))
            +ℤ pos c)
record_position-share env ac caller id investor other c t s s' h o ne =
    let m = load_positions s id in
    let (share, least, below, e1, cap, stored) =
      record_position-eq_ok env ac caller id investor c t s s' h in
    let (exact, most) = share_of-eq_some c t share least below e1 in
    let p = recorded id investor c share in
    let (pool, agg, e2, e3, e) = store_position-eq_ok id p s s' stored in
    let now : load_positions s' id ≡ insert investor p m = rw e (ground arith) in
    let total_now = ap total_bps now in
    (
      p,
      pool,
      ap (lookup investor) now ∙ lookup-insert investor investor p m ∙ ground arith,
      refl,
      exact,
      cap,
      omega (arith, exact, most),
      ap (lookup other) now ∙ lookup-insert other investor p m ∙ ground (arith, ne),
      omega (arith, total_now, total-insert (λ (p : Position). p.share_bps) investor p m o),
      e2,
      rw e (ground arith)
          ∙ aggregate_after-eq_some (get_aggregate_funded s pool.token)
              (contributed_by (lookup investor m)) (pos c) agg e3,
    )
