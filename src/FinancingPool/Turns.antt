-- ===== src/FinancingPool/Turns.antt =====
-- Repayments and defaults of contracts/financing_pool/src/lib.rs, as changes of the pools and the
-- offers.
use stellar_invoice_finance.Prelude.{
  ℕ, ◌+◌, ◌≡◌, arith, false, some, ℤ, pos, ◌≤ℤ◌, ltb_ℤ, Option-some, Option-cases, ap, sym, ◌∙◌,
  ◌==◌, Bool-cases, inl, inr, if◌then◌else◌,
}
use stellar_invoice_finance.Shared.{
  Env, Address, Symbol, Action, Pool, Invoice, ok, bind-eq_ok, Outcome-ok, Outcome-cases, enter,
  unauthorized, pool_already_closed, reject_if-eq_ok, require_auth-eq_ok,
}
use stellar_invoice_finance.Shared.Token.{Tokens}
use stellar_invoice_finance.AccessControl.State.{AccessControl}
use stellar_invoice_finance.PriceOracle.{PriceOracle}
use stellar_invoice_finance.InvoiceNft.State.{InvoiceNft, get_invoice}
use stellar_invoice_finance.InvoiceNft.Lifecycle.{set_defaulted}
use stellar_invoice_finance.RiskRegistry.Profiles.{record_default}
use stellar_invoice_finance.FinancingPool.State.{
  FinancingPool, World, set_pool, call_nft, in_pool, convert_if_needed, require_admin,
  require_not_paused, load_pool,
}
use stellar_invoice_finance.FinancingPool.Yield.{distribute_yield}
use stellar_invoice_finance.FinancingPool.Repayment
use stellar_invoice_finance.FinancingPool.Owed.{IsPool, positive-eq_pos, convert_if_needed-eq_ok}
use stellar_invoice_finance.FinancingPool.Paid.{lock_in, repay-eq_ok, receive_payment-eq_ok}
use stellar_invoice_finance.FinancingPool.Closing.{
  SamePools, Settled, settle-Settled, distribute_yield-SamePools, credited, credited-eq,
  credited-IsPool,
}
use stellar_invoice_finance.FinancingPool.Repaid.{transfer-SamePools, pool_after}
use stellar_invoice_finance.FinancingPool.Ledger.{Ledger, ledger}

pub SamePools-ledger : (s s' : FinancingPool) → SamePools s s' → ledger s' ≡ ledger s
SamePools-ledger s s' (a, b, c, d) = ground (arith, a, c, d)

Settled-ledger :
    (id : ℕ) (q : Pool) (t v : World) → Settled id q t v → ledger v.financing ≡ ledger t.financing
Settled-ledger id q t v (inl (e, same, j)) = SamePools-ledger t.financing v.financing same
Settled-ledger id q t v (inr (e, k)) = ap (λ v. ledger v.financing) k

abbrev pub put_pool : ℕ → Pool → Ledger → Ledger
put_pool id p l = record l { pool = λ j. if j == id then some p else l.pool j }

receive_payment-ledger :
    (env : Env) (ac : AccessControl) (oracle : PriceOracle) (usdc : Symbol) (tokens : Tokens)
    (payer : Address) (id : ℕ) (token : Address) (amount : ℤ) (p : Pool) (i : Invoice)
    (w w' : World) (o : IsPool id p)
    → Repayment.receive_payment env ac oracle usdc tokens payer id token amount p i w ≡ ok (tt, w')
    → p.is_closed ≡ false
    → pos 1 ≤ℤ amount
    → (q : Pool) × IsPool id q × (ledger w'.financing ≡ put_pool id q (ledger w.financing))
unfolding credited
receive_payment-ledger env ac oracle usdc tokens payer id token amount p i w w' o h opened least =
    let (owed, q, effective, s, u, v, e1, e2, e3, e4, e5, e6) =
      receive_payment-eq_ok env ac oracle usdc tokens payer id token amount p i w w' h in
    let (a, k, ea) = positive-eq_pos amount least in
    let (b, kb, eb, es) =
      convert_if_needed-eq_ok env oracle usdc a i.currency effective w.financing s k
        (ap (λ x. convert_if_needed env oracle usdc x i.currency w.financing) (sym ea) ∙ e1) in
    let eq =
      credited-eq env i.due_date p owed q id b o e2
        (ap (λ x. Repayment.credit x owed) (sym eb) ∙ e3) in
    let t : World = record w { financing = u } in
    let done =
      settle-Settled env ac tokens id token q (o.repaid + b) t v e5
        (ap (λ q. q.repaid_amount) eq) in
    let paid = transfer-SamePools tokens token payer env.self amount (set_pool id q s) u e4 in
    (
      pool_after env i.due_date b id p o,
      credited-IsPool env i.due_date p id b o opened,
      ap (λ x. ledger x.financing) e6
          ∙ Settled-ledger id q t v done
          ∙ SamePools-ledger (set_pool id q s) u paid
          ∙ ap (λ s. put_pool id q (ledger s)) es
          ∙ ap (λ q. put_pool id q (ledger w.financing)) eq,
    )

pub repay-ledger :
    (env : Env) (ac : AccessControl) (oracle : PriceOracle) (usdc : Symbol) (tokens : Tokens)
    (payer : Address) (id : ℕ) (token : Address) (amount : ℤ) (w w' : World)
    → Repayment.repay env ac oracle usdc tokens payer id token amount w ≡ ok (tt, w')
    → ((p : Pool) → w.financing.pool id ≡ some p → IsPool id p)
    → (p q : Pool) × (w.financing.pool id ≡ some p)
      × (p.is_closed ≡ false)
      × IsPool id q
      × (ledger w'.financing ≡ put_pool id q (ledger w.financing))
repay-ledger env ac oracle usdc tokens payer id token amount w w' h v =
    let (p, i, least, by, there, is_open, e, frozen, free, rest) =
      repay-eq_ok env ac oracle usdc tokens payer id token amount w w' h in
    let (q, good, l) =
      receive_payment-ledger env ac oracle usdc tokens payer id token amount p i (lock_in id w) w'
        (v p there) rest is_open least in
    (p, q, there, is_open, good, l)

pub distribute_repaid-ledger :
    (env : Env) (tokens : Tokens) (id : ℕ) (token : Address) (p : Pool) (s s' : FinancingPool)
    → IsPool id p
    → Repayment.distribute_repaid env tokens id token p s ≡ ok (tt, s')
    → ledger s' ≡ ledger s
unfolding Repayment.distribute_repaid
distribute_repaid-ledger env tokens id token p s s' o h =
    elim (Bool-cases (ltb_ℤ (pos 0) p.repaid_amount)) [
      | inl b ↦
          let paid : distribute_yield env tokens id token (pos o.repaid) s ≡ ok (tt, s') =
            ap (λ x. distribute_yield env tokens id token x s) (sym o.repaid_is)
            ∙ ground (arith, h, b) in
          SamePools-ledger s s' (distribute_yield-SamePools env tokens id token o.repaid s s' paid)
      | inr b ↦ ground (arith, h, b)
    ]

pub in_pool-eq_ok :
    {A : Type 0} (m : Action FinancingPool A) (a : A) (w w' : World)
    → in_pool m w ≡ ok (a, w')
    → m w.financing ≡ ok (a, w'.financing)
in_pool-eq_ok m a w w' h =
    let ((b, t), e) =
      Outcome-ok (m w.financing) (λ x z. ground (arith, h, z)) (λ z. ground (arith, h, z)) in
    ground (arith, h, e)

pub call_nft-financing :
    {A : Type 0} (env : Env) (f : Env → Action InvoiceNft A) (a : A) (w w' : World)
    → call_nft env f w ≡ ok (a, w')
    → w'.financing ≡ w.financing
call_nft-financing env f a w w' h =
    let (c, e) = Option-some w.financing.invoice_nft (λ z. ground (arith, h, z)) in
    let ((x, t), g) =
      Outcome-ok (f (enter env c) w.nft) (λ x z. ground (arith, h, e, z))
        (λ z. ground (arith, h, e, z)) in
    ground (arith, h, e, g)

try_record_default-financing :
    (env : Env) (a : Address) (i : Invoice) (w w' : World)
    → Repayment.try_record_default env a i w ≡ ok (tt, w')
    → w'.financing ≡ w.financing
unfolding Repayment.try_record_default
try_record_default-financing env a i w w' h = elim (Option-cases w.financing.risk_registry) [
  | inl e ↦ ground (arith, h, e)
  | inr (rr, e) ↦ elim (Outcome-cases (record_default (enter env rr) a i.sme w.risk)) [
    | inl ((u, s), f) ↦ ground (arith, h, e, f)
    | inr (inl (x, f)) ↦ ground (arith, h, e, f)
    | inr (inr f) ↦ ground (arith, h, e, f)
  ]
]

require_admin-same : (a : Address) (s t : FinancingPool) → require_admin a s ≡ ok (tt, t) → t ≡ s
require_admin-same a s t h =
    let (b, e) = Option-some s.admin (λ z. ground (arith, h, z)) in ground (arith, h, e)

pub require_not_paused-same :
    (ac : AccessControl) (s t : FinancingPool) → require_not_paused ac s ≡ ok (tt, t) → t ≡ s
require_not_paused-same ac s t h =
    let (b, e) = Option-some s.access_control (λ z. ground (arith, h, z)) in ground (arith, h, e)

pub load_pool-same :
    (id : ℕ) (p : Pool) (s t : FinancingPool)
    → load_pool id s ≡ ok (p, t)
    → (s.pool id ≡ some p) × (t ≡ s)
load_pool-same id p s t h =
    let (b, e) = Option-some (s.pool id) (λ z. ground (arith, h, z)) in
    (ground (arith, h, e), ground (arith, h, e))

pub mark_default-ledger :
    (env : Env) (ac : AccessControl) (tokens : Tokens) (a : Address) (id : ℕ) (token : Address)
    (w w' : World)
    → Repayment.mark_default env ac tokens a id token w ≡ ok (tt, w')
    → ((p : Pool) → w.financing.pool id ≡ some p → IsPool id p)
    → ledger w'.financing ≡ ledger w.financing
unfolding Repayment.mark_default
mark_default-ledger env ac tokens a id token w w' h v =
    let (auth, h1) = require_auth-eq_ok env a _ w (tt, w') h in
    let (x1, w1, e1, h2) = bind-eq_ok (in_pool (require_admin a)) _ w (tt, w') h1 in
    let (x2, w2, e2, h3) = bind-eq_ok (in_pool (require_not_paused ac)) _ w1 (tt, w') h2 in
    let (free, h4) =
      reject_if-eq_ok (w2.financing.repayment_lock id) unauthorized _ w2 (tt, w') h3 in
    let (p, w3, e3, h5) = bind-eq_ok (in_pool (load_pool id)) _ w2 (tt, w') h4 in
    let (opened, h6) = reject_if-eq_ok p.is_closed pool_already_closed _ w3 (tt, w') h5 in
    let (x4, w4, e4, h7) =
      bind-eq_ok (in_pool (Repayment.distribute_repaid env tokens id token p)) _ w3 (tt, w') h6 in
    let (x5, w5, e5, h8) = bind-eq_ok (call_nft env (λ e. set_defaulted e a id)) _ w4 (tt, w') h7 in
    let (i, w6, e6, h9) =
      bind-eq_ok (call_nft env (λ e. get_invoice id)) (λ i. Repayment.try_record_default env a i) w5
        (tt, w') h8 in
    let s1 =
      require_admin-same a w.financing w1.financing (in_pool-eq_ok (require_admin a) tt w w1 e1) in
    let s2 =
      require_not_paused-same ac w1.financing w2.financing
        (in_pool-eq_ok (require_not_paused ac) tt w1 w2 e2) in
    let (there, s3) =
      load_pool-same id p w2.financing w3.financing (in_pool-eq_ok (load_pool id) p w2 w3 e3) in
    let good = v p (ap (λ s. s.pool id) (sym (s2 ∙ s1)) ∙ there) in
    let s4 =
      distribute_repaid-ledger env tokens id token p w3.financing w4.financing good
        (in_pool-eq_ok (Repayment.distribute_repaid env tokens id token p) tt w3 w4 e4) in
    let s5 = call_nft-financing env (λ e. set_defaulted e a id) tt w4 w5 e5 in
    let s6 = call_nft-financing env (λ e. get_invoice id) i w5 w6 e6 in
    let s7 = try_record_default-financing env a i w6 w' h9 in
    ap ledger (s7 ∙ s6 ∙ s5) ∙ s4 ∙ ap ledger (s3 ∙ s2 ∙ s1)
