-- ===== src/FinancingPool/Steps.antt =====
-- The calls of contracts/financing_pool/src/lib.rs that succeed, as steps, and the states that they
-- lead to from a pool contract without storage.
use stellar_invoice_finance.Prelude.{ℕ, ℤ, ◌≡◌}
use stellar_invoice_finance.Shared.{Env, Address, Hash, Symbol, ok}
use stellar_invoice_finance.Shared.Token.{Tokens}
use stellar_invoice_finance.AccessControl.State.{AccessControl}
use stellar_invoice_finance.InvoiceNft.State.{InvoiceNft}
use stellar_invoice_finance.PriceOracle.{PriceOracle}
use stellar_invoice_finance.FinancingPool.State.{FinancingPool, World, fresh}
use stellar_invoice_finance.FinancingPool.Admin
use stellar_invoice_finance.FinancingPool.Positions
use stellar_invoice_finance.FinancingPool.Market
use stellar_invoice_finance.FinancingPool.Repayment
use stellar_invoice_finance.FinancingPool.Settlement

-- The calls that change the pool contract alone.
pub data Call (s s' : FinancingPool) : Type 0 where
  initialize :
      (env : Env) (a n r t ac : Address) (late : ℕ) (po : Address) (limit : ℕ)
      → Admin.initialize env a n r t ac late po limit s ≡ ok (tt, s')
      → Call s s'
  set_max_position_bps :
      (env : Env) (a : Address) (n : ℕ)
      → Admin.set_max_position_bps env a n s ≡ ok (tt, s')
      → Call s s'
  propose_upgrade :
      (env : Env) (a : Address) (h : Hash)
      → Admin.propose_upgrade env a h s ≡ ok (tt, s')
      → Call s s'
  execute_upgrade :
      (env : Env) (a : Address) → Admin.execute_upgrade env a s ≡ ok (tt, s') → Call s s'
  record_position :
      (env : Env) (ac : AccessControl) (caller : Address) (id : ℕ) (investor : Address) (c t : ℤ)
      → Positions.record_position env ac caller id investor c t s ≡ ok (tt, s')
      → Call s s'
  list_position_for_sale :
      (env : Env) (ac : AccessControl) (seller : Address) (id : ℕ) (token : Address) (price : ℤ)
      → Market.list_position_for_sale env ac seller id token price s ≡ ok (tt, s')
      → Call s s'
  buy_position :
      (env : Env) (ac : AccessControl) (tokens : Tokens) (buyer : Address) (id : ℕ)
      (seller : Address)
      → Market.buy_position env ac tokens buyer id seller s ≡ ok (tt, s')
      → Call s s'
  propose_early_settlement :
      (env : Env) (ac : AccessControl) (nft : InvoiceNft) (tokens : Tokens) (sme : Address) (id : ℕ)
      (amount : ℤ)
      → Settlement.propose_early_settlement env ac nft tokens sme id amount s ≡ ok (tt, s')
      → Call s s'
  cancel_early_settlement :
      (env : Env) (nft : InvoiceNft) (tokens : Tokens) (sme : Address) (id : ℕ)
      → Settlement.cancel_early_settlement env nft tokens sme id s ≡ ok (tt, s')
      → Call s s'

-- Between the calls of the pool the other contracts may change in any way.
pub data Step (w w' : World) : Type 0 where
  call : Call w.financing w'.financing → Step w w'
  release_funds :
      (env : Env) (ac : AccessControl) (m : Address) (id : ℕ) (token : Address)
      → Repayment.release_funds env ac m id token w ≡ ok (tt, w')
      → Step w w'
  repay :
      (env : Env) (ac : AccessControl) (oracle : PriceOracle) (usdc : Symbol) (tokens : Tokens)
      (payer : Address) (id : ℕ) (token : Address) (amount : ℤ)
      → Repayment.repay env ac oracle usdc tokens payer id token amount w ≡ ok (tt, w')
      → Step w w'
  mark_default :
      (env : Env) (ac : AccessControl) (tokens : Tokens) (a : Address) (id : ℕ) (token : Address)
      → Repayment.mark_default env ac tokens a id token w ≡ ok (tt, w')
      → Step w w'
  accept_early_settlement :
      (env : Env) (ac : AccessControl) (tokens : Tokens) (investor : Address) (id : ℕ)
      → Settlement.accept_early_settlement env ac tokens investor id w ≡ ok (tt, w')
      → Step w w'
  others : w'.financing ≡ w.financing → Step w w'

pub data Reach : World → Type 0 where
  deployed : (w : World) → w.financing ≡ fresh → Reach w
  next : (w w' : World) → Reach w → Step w w' → Reach w'

pub data Steps (w : World) : World → Type 0 where
  here : Steps w w
  next : (t u : World) → Steps w t → Step t u → Steps w u
