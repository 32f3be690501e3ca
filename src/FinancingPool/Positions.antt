-- ===== src/FinancingPool/Positions.antt =====
-- contracts/financing_pool/src/lib.rs: recording an investor's position, and the pages of positions.
use stellar_invoice_finance.Prelude.{
  ℕ, zero, suc, ◌+◌, ◌-◌, ◌%◌, ◌^◌, Option, none, some, ℤ, pos, pos_part, ltb, ◌||◌, if◌then◌else◌,
  update, get_or, leb, leb_ℤ, ltb_ℤ, checked_mul, checked_div, checked_sub, checked_add, length,
  get_elem?, List, [], ◌∷◌, lookup, insert, values,
}
use stellar_invoice_finance.Shared.{
  Env, Address, Action, ◌>>=◌, ◌>>◌, gets, ok_or, reject_if, modify, require_auth, Position,
  invalid_amount, exceeds_funding_target, arithmetic_overflow, ok, err, panic, Outcome,
}
use stellar_invoice_finance.Shared.Validation.{max_amount}
use stellar_invoice_finance.AccessControl.State.{AccessControl}
use stellar_invoice_finance.FinancingPool.State.{
  FinancingPool, require_admin, require_not_paused, load_pool, load_positions, get_max_position_bps,
}

-- `contributed.checked_mul(10_000).and_then(|v| v.checked_div(total_pool))`
unfoldable pub share_of : ℤ → ℤ → Option ℤ
share_of contributed total_pool = elim (checked_mul contributed (pos 10000)) [
  | none ↦ none
  | some v ↦ checked_div v total_pool
]

-- `as u32`, which keeps the low 32 bits; the share is not negative here.
abbrev pub as_u32 : ℤ → ℕ
as_u32 a = pos_part a % 2 ^ 32

unfoldable pub aggregate_after : ℤ → ℤ → ℤ → Option ℤ
aggregate_after prev_agg old_contributed contributed = elim (checked_sub prev_agg old_contributed) [
  | none ↦ none
  | some v ↦ checked_add v contributed
]

abbrev pub contributed_by : Option Position → ℤ
contributed_by none = pos 0
contributed_by (some p) = p.contributed

-- The writes of `record_position`: the position, in place of an earlier one, and the aggregate of the
-- pool's token.
unfoldable pub store_position : ℕ → Position → Action FinancingPool (Unit {0})
store_position invoice_id position = do
  positions ← gets (λ s. load_positions s invoice_id)
  let old_contributed = contributed_by (lookup position.investor positions)
  modify (λ s. record s {
    positions = update s.positions invoice_id (some (insert position.investor position positions));
  })
  pool ← load_pool invoice_id
  prev_agg ← gets (λ s. get_or (s.aggregate_funded pool.token) (pos 0))
  new_agg ←
      ok_or (aggregate_after prev_agg old_contributed position.contributed) arithmetic_overflow
  modify (λ s. record s { aggregate_funded = update s.aggregate_funded pool.token (some new_agg) })

unfoldable pub record_position :
    Env → AccessControl → Address → ℕ → Address → ℤ → ℤ → Action FinancingPool (Unit {0})
record_position env ac caller invoice_id investor contributed total_pool = do
  require_auth env caller
  require_admin caller
  require_not_paused ac
  reject_if (leb_ℤ contributed (pos 0) || leb_ℤ total_pool (pos 0)) invalid_amount
  reject_if
      (ltb_ℤ total_pool contributed
        || (ltb_ℤ max_amount contributed || ltb_ℤ max_amount total_pool))
      invalid_amount
  share ← ok_or (share_of contributed total_pool) arithmetic_overflow
  let share_bps = as_u32 share
  max_position_bps ← gets get_max_position_bps
  reject_if (ltb max_position_bps share_bps) exceeds_funding_target
  let position : Position = record {
    investor = investor;
    invoice_id = invoice_id;
    contributed = contributed;
    share_bps = share_bps;
    yield_claimed = pos 0;
  }
  store_position invoice_id position

-- The loop of `get_positions_page` on the rounds that are left; `unwrap` of a missing element traps.
unfoldable pub page_from : {A : Type 0} → List A → ℕ → ℕ → Outcome (List A)
page_from all i zero = ok []
page_from all i (suc rounds) =
    let rest = page_from all (i + 1) rounds in
    elim (get_elem? all i) [
      | none ↦ panic
      | some p ↦ elim rest [ ok page ↦ ok (p ∷ page) | err e ↦ err e | panic ↦ panic ]
    ]

abbrev pub min : ℕ → ℕ → ℕ
min a b = if leb a b then a else b

unfoldable pub get_positions_page : FinancingPool → ℕ → ℕ → ℕ → Outcome (List Position)
get_positions_page s invoice_id offset limit =
    let all = values (load_positions s invoice_id) in
    let total = length all in
    let start = min offset total in
    let end = min (start + min limit 100) total in page_from all start (end - start)
