-- ===== src/FinancingPool/Repayment.antt =====
-- contracts/financing_pool/src/lib.rs: opening a pool, repayment with the late penalty, and default.
use stellar_invoice_finance.Prelude.{
  ℕ, true, false, not, none, some, ℤ, pos, ltb, ◌==◌, ◌||◌, ◌&&◌, if◌then◌else◌, leb_ℤ, ltb_ℤ,
  is_some, checked_add,
}
use stellar_invoice_finance.Shared.{
  Env, Address, Symbol, Outcome, Action, ok, err, panic, ◌>>=◌, ◌>>◌, gets, ok_or, lift, reject_if,
  modify, require_auth, enter, Pool, Invoice, pool_already_closed, invalid_address, invalid_amount,
  not_initialized, invoice_frozen, unauthorized, repayment_already_made, arithmetic_overflow,
}
use stellar_invoice_finance.Shared.Token.{Tokens}
use stellar_invoice_finance.Shared.Validation.{max_amount, bps_of}
use stellar_invoice_finance.AccessControl.State.{AccessControl}
use stellar_invoice_finance.InvoiceNft.State.{is_invoice_frozen, get_invoice}
use stellar_invoice_finance.InvoiceNft.Lifecycle.{set_funded, set_repaid, set_defaulted}
use stellar_invoice_finance.RiskRegistry.Profiles.{record_default}
use stellar_invoice_finance.PriceOracle.{PriceOracle}
use stellar_invoice_finance.FinancingPool.State.{
  FinancingPool, World, in_pool, call_nft, set_pool, set_repayment_lock, load_pool,
  require_not_paused, require_admin, transfer, convert_if_needed,
}
use stellar_invoice_finance.FinancingPool.Yield.{distribute_yield}

unfoldable pub release_funds : Env → AccessControl → Address → ℕ → Address → Action World (Unit {0})
release_funds env ac marketplace invoice_id token = do
  require_auth env marketplace
  in_pool (require_not_paused ac)
  reject_if (is_some (← gets (λ w. w.financing.pool invoice_id))) pool_already_closed
  reject_if (token == env.self) invalid_address
  invoice ← call_nft env (λ e. get_invoice invoice_id)
  reject_if (leb_ℤ invoice.amount (pos 0) || ltb_ℤ max_amount invoice.amount) invalid_amount
  late_penalty_bps ← ok_or (← gets (λ w. w.financing.late_penalty_bps)) not_initialized
  let pool : Pool = record {
    invoice_id = invoice_id;
    token = token;
    total_funded = pos 0;
    face_value = invoice.amount;
    repaid_amount = pos 0;
    is_closed = false;
    late_penalty_bps = late_penalty_bps;
    total_owed = invoice.amount;
    penalty_applied = false;
  }
  in_pool (modify (set_pool invoice_id pool))
  call_nft env (λ e. set_funded e ac env.self invoice_id)

-- The late penalty, added once.
unfoldable pub with_penalty : Env → ℕ → Pool → Outcome Pool
with_penalty env due_date pool =
    if not pool.penalty_applied && (ltb 0 pool.late_penalty_bps && ltb due_date env.now)
    then elim (bps_of pool.face_value pool.late_penalty_bps) [
      | ok penalty ↦ elim (checked_add pool.total_owed penalty) [
        | none ↦ err arithmetic_overflow
        | some owed ↦ ok (record pool { total_owed = owed; penalty_applied = true })
      ]
      | err e ↦ err e
      | panic ↦ panic
    ]
    else ok pool

-- The amount credited and the closing of the pool when all that is owed has been repaid.
unfoldable pub credit : ℤ → Pool → Outcome Pool
credit effective_amount pool = elim (checked_add pool.repaid_amount effective_amount) [
  | none ↦ err arithmetic_overflow
  | some repaid ↦ ok (record pool {
    repaid_amount = repaid;
    is_closed = if leb_ℤ pool.total_owed repaid then true else pool.is_closed;
  })
]

-- What follows the payment: a pool that closes pays its investors and marks the invoice repaid.
unfoldable pub settle : Env → AccessControl → Tokens → ℕ → Address → Pool → Action World (Unit {0})
settle env ac tokens invoice_id token pool w = elim (leb_ℤ pool.total_owed pool.repaid_amount) [
  | true ↦
      (do
        in_pool (distribute_yield env tokens invoice_id token pool.repaid_amount)
        call_nft env (λ e. set_repaid e ac env.self invoice_id))
        w
  | false ↦ ok (tt, w)
]

-- `repay` from the conversion of the amount on, for an open pool and its invoice.
unfoldable pub receive_payment :
    Env
    → AccessControl
    → PriceOracle
    → Symbol
    → Tokens
    → Address
    → ℕ
    → Address
    → ℤ
    → Pool
    → Invoice
    → Action World (Unit {0})
receive_payment env ac oracle usdc tokens payer invoice_id token amount opened invoice = do
  effective_amount ← in_pool (convert_if_needed env oracle usdc amount invoice.currency)
  owed ← lift (with_penalty env invoice.due_date opened)
  pool ← lift (credit effective_amount owed)
  in_pool (modify (set_pool invoice_id pool))
  in_pool (transfer tokens token payer env.self amount)
  settle env ac tokens invoice_id token pool
  in_pool (modify (set_repayment_lock invoice_id false))

unfoldable pub repay :
    Env
    → AccessControl
    → PriceOracle
    → Symbol
    → Tokens
    → Address
    → ℕ
    → Address
    → ℤ
    → Action World (Unit {0})
repay env ac oracle usdc tokens payer invoice_id token amount = do
  require_auth env payer
  reject_if (leb_ℤ amount (pos 0) || ltb_ℤ max_amount amount) invalid_amount
  _ ← ok_or (← gets (λ w. w.financing.invoice_nft)) not_initialized
  reject_if (is_invoice_frozen (← gets (λ w. w.nft)) invoice_id) invoice_frozen
  reject_if (← gets (λ w. w.financing.repayment_lock invoice_id)) unauthorized
  in_pool (modify (set_repayment_lock invoice_id true))
  opened ← in_pool (load_pool invoice_id)
  reject_if opened.is_closed repayment_already_made
  invoice ← call_nft env (λ e. get_invoice invoice_id)
  receive_payment env ac oracle usdc tokens payer invoice_id token amount opened invoice

-- What a defaulted pool already holds goes to the investors.
unfoldable pub distribute_repaid :
    Env → Tokens → ℕ → Address → Pool → Action FinancingPool (Unit {0})
distribute_repaid env tokens invoice_id token pool s = elim (ltb_ℤ (pos 0) pool.repaid_amount) [
  | true ↦ distribute_yield env tokens invoice_id token pool.repaid_amount s
  | false ↦ ok (tt, s)
]

-- `try_record_default`, whose failure is ignored.
unfoldable pub try_record_default : Env → Address → Invoice → Action World (Unit {0})
try_record_default env admin invoice w = elim w.financing.risk_registry [
  | none ↦ ok (tt, w)
  | some rr_contract ↦ elim (record_default (enter env rr_contract) admin invoice.sme w.risk) [
    | ok (u, s) ↦ ok (tt, record w { risk = s })
    | err e ↦ ok (tt, w)
    | panic ↦ ok (tt, w)
  ]
]

unfoldable pub mark_default :
    Env → AccessControl → Tokens → Address → ℕ → Address → Action World (Unit {0})
mark_default env ac tokens admin invoice_id token = do
  require_auth env admin
  in_pool (require_admin admin)
  in_pool (require_not_paused ac)
  reject_if (← gets (λ w. w.financing.repayment_lock invoice_id)) unauthorized
  pool ← in_pool (load_pool invoice_id)
  reject_if pool.is_closed pool_already_closed
  in_pool (distribute_repaid env tokens invoice_id token pool)
  call_nft env (λ e. set_defaulted e admin invoice_id)
  invoice ← call_nft env (λ e. get_invoice invoice_id)
  try_record_default env admin invoice
