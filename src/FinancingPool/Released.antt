-- ===== src/FinancingPool/Released.antt =====
-- What `release_funds` of contracts/financing_pool/src/lib.rs does where it succeeds.
use stellar_invoice_finance.Prelude.{
  ℕ, ◌≡◌, arith, false, none, some, pos, ◌==◌, ◌||◌, leb_ℤ, ltb_ℤ, is_some, ap, sym, ◌∙◌,
  Option-some,
}
use stellar_invoice_finance.Shared.{
  Env, Address, Invoice, Pool, Action, ok, enter, ◌>>=◌, ◌>>◌, modify, gets, ok_or, reject_if,
  bind-eq_ok, reject_if-eq_ok, ok_or-eq_ok, require_auth-eq_ok, Outcome-ok, pool_already_closed,
  invalid_address, invalid_amount, not_initialized,
}
use stellar_invoice_finance.Shared.Validation.{max_amount}
use stellar_invoice_finance.AccessControl.State.{AccessControl}
use stellar_invoice_finance.InvoiceNft.State.{InvoiceNft, get_invoice, current}
use stellar_invoice_finance.InvoiceNft.Lifecycle.{set_funded}
use stellar_invoice_finance.FinancingPool.State.{
  World, in_pool, call_nft, set_pool, require_not_paused,
}
use stellar_invoice_finance.FinancingPool.Repayment.{release_funds}

-- The pool that is opened for an invoice.
abbrev pub new_pool : ℕ → Address → Invoice → ℕ → Pool
new_pool id token i late_penalty_bps = record {
  invoice_id = id;
  token = token;
  total_funded = pos 0;
  face_value = i.amount;
  repaid_amount = pos 0;
  is_closed = false;
  late_penalty_bps = late_penalty_bps;
  total_owed = i.amount;
  penalty_applied = false;
}

not_paused-same :
    (ac : AccessControl) (w w' : World) → in_pool (require_not_paused ac) w ≡ ok (tt, w') → w' ≡ w
not_paused-same ac w w' h =
    let (a, e) = Option-some w.financing.access_control (λ z. ground (arith, h, z)) in
    ground (arith, h, e)

get_invoice-same :
    (env : Env) (id : ℕ) (i : Invoice) (w w' : World)
    → call_nft env (λ e. get_invoice id) w ≡ ok (i, w')
    → (w.nft.invoice id ≡ some (current i)) × (w' ≡ w)
get_invoice-same env id i w w' h =
    let (a, e) = Option-some w.financing.invoice_nft (λ z. ground (arith, h, z)) in
    (ground (arith, h, e), ground (arith, h, e))

call_nft-eq_ok :
    (env : Env) (f : Env → Action InvoiceNft (Unit {0})) (w w' : World)
    → call_nft env f w ≡ ok (tt, w')
    → (a : Address) × (f (enter env a) w.nft ≡ ok (tt, w'.nft)) × (w'.financing ≡ w.financing)
call_nft-eq_ok env f w w' h =
    let (a, e) = Option-some w.financing.invoice_nft (λ z. ground (arith, h, z)) in
    let ((x, t), g) =
      Outcome-ok (f (enter env a) w.nft) (λ x z. ground (arith, h, e, z))
        (λ z. ground (arith, h, e, z)) in
    (a, ground (arith, h, e, g), ground (arith, h, e, g))

pub release_funds-eq_ok :
    (env : Env) (ac : AccessControl) (m : Address) (id : ℕ) (token : Address) (w w' : World)
    → release_funds env ac m id token w ≡ ok (tt, w')
    → (i : Invoice) × (late a : ℕ) × (w.financing.pool id ≡ none)
      × (w.nft.invoice id ≡ some (current i))
      × (leb_ℤ i.amount (pos 0) ≡ false)
      × (w.financing.late_penalty_bps ≡ some late)
      × (w'.financing ≡ set_pool id (new_pool id token i late) w.financing)
      × (set_funded (enter env a) ac env.self id w.nft ≡ ok (tt, w'.nft))
unfolding release_funds
release_funds-eq_ok env ac m id token w w' h =
    let (auth, h1) = require_auth-eq_ok env m _ w (tt, w') h in
    let (x1, w1, e1, h2) =
      bind-eq_ok (in_pool (require_not_paused ac)) (λ x. opens) w (tt, w') h1 in
    let w1' = not_paused-same ac w w1 e1 in
    let (free, h3) =
      reject_if-eq_ok (is_some (w.financing.pool id)) pool_already_closed _ w (tt, w')
        (ap opens (sym w1') ∙ h2) in
    let (other, h4) = reject_if-eq_ok (token == env.self) invalid_address _ w (tt, w') h3 in
    let (i, w2, e2, h5) = bind-eq_ok (call_nft env (λ e. get_invoice id)) stores w (tt, w') h4 in
    let (found, w2') = get_invoice-same env id i w w2 e2 in
    let (sized, h6) =
      reject_if-eq_ok (leb_ℤ i.amount (pos 0) || ltb_ℤ max_amount i.amount) invalid_amount _ w
        (tt, w') (ap (stores i) (sym w2') ∙ h5) in
    let (late, e3, h7) = ok_or-eq_ok w.financing.late_penalty_bps not_initialized _ w (tt, w') h6 in
    let (a, funded, kept) =
      call_nft-eq_ok env (λ e. set_funded e ac env.self id)
        (record w { financing = set_pool id (new_pool id token i late) w.financing }) w' h7 in
    (i, late, a, ground (arith, free), found, ground (arith, sized), e3, kept, funded)
  where
    stores : Invoice → Action World (Unit {0})
    stores invoice = do
      reject_if (leb_ℤ invoice.amount (pos 0) || ltb_ℤ max_amount invoice.amount) invalid_amount
      late_penalty_bps ← ok_or (← gets (λ w. w.financing.late_penalty_bps)) not_initialized
      in_pool (modify (set_pool id (new_pool id token invoice late_penalty_bps)))
      call_nft env (λ e. set_funded e ac env.self id)

    opens : Action World (Unit {0})
    opens = do
      reject_if (is_some (← gets (λ w. w.financing.pool id))) pool_already_closed
      reject_if (token == env.self) invalid_address
      invoice ← call_nft env (λ e. get_invoice id)
      stores invoice
