-- ===== src/FinancingPool/Yield.antt =====
-- contracts/financing_pool/src/lib.rs: `distribute_yield`, which pays every position its share of
-- what was repaid.
use stellar_invoice_finance.Prelude.{
  ℕ, some, ℤ, pos, update, get_or, checked_sub, saturating_add, saturating_sub, [], ◌∷◌, Map,
}
use stellar_invoice_finance.Shared.{
  Env, Address, Action, ◌>>=◌, ◌>>◌, gets, ok_or, lift, modify, pure, Position, arithmetic_overflow,
}
use stellar_invoice_finance.Shared.Token.{Tokens}
use stellar_invoice_finance.Shared.Validation.{bps_of_normalized}
use stellar_invoice_finance.FinancingPool.State.{FinancingPool, load_positions, transfer}

-- One round of the loop: the payout of a position, and what it adds to `total_contributed`.
unfoldable pub pay_position :
    Env → Tokens → Address → ℤ → Address → Position → ℤ → Action FinancingPool ℤ
pay_position env tokens token total_repaid investor position total_contributed = do
  payout ← lift (bps_of_normalized total_repaid position.share_bps (tokens.decimals token))
  _ ← ok_or (checked_sub payout position.contributed) arithmetic_overflow
  transfer tokens token env.self investor payout
  pure (saturating_add total_contributed position.contributed)

unfoldable pub pay_positions :
    Env → Tokens → Address → ℤ → Map Position → ℤ → Action FinancingPool ℤ
pay_positions env tokens token total_repaid [] total_contributed = pure total_contributed
pay_positions env tokens token total_repaid ((investor, position) ∷ rest) total_contributed = do
  next ← pay_position env tokens token total_repaid investor position total_contributed
  pay_positions env tokens token total_repaid rest next

unfoldable pub distribute_yield : Env → Tokens → ℕ → Address → ℤ → Action FinancingPool (Unit {0})
distribute_yield env tokens invoice_id token total_repaid = do
  positions ← gets (λ s. load_positions s invoice_id)
  total_contributed ← pay_positions env tokens token total_repaid positions (pos 0)
  prev_agg ← gets (λ s. get_or (s.aggregate_funded token) (pos 0))
  modify (λ s. record s {
    aggregate_funded =
        update s.aggregate_funded token (some (saturating_sub prev_agg total_contributed));
  })
