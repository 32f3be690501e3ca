-- ===== src/Marketplace/Rates/Closing.antt =====
-- Cancellations and refunds of contracts/marketplace/src/lib.rs keep the stored fee rates at 100 %
-- or below.
use stellar_invoice_finance.Prelude.{ℕ, ◌≡◌, arith, Option-some, inl, inr, ℤ}
use stellar_invoice_finance.Shared.{Env, Address, Listing, Outcome-ok, bind-eq_ok, ok}
use stellar_invoice_finance.Shared.Token.{Tokens}
use stellar_invoice_finance.Marketplace.State.{Marketplace, load_config, transfer}
use stellar_invoice_finance.Marketplace.Cancellation
use stellar_invoice_finance.Marketplace.Funding.{get_contribution}
use stellar_invoice_finance.Marketplace.Guards.{close_or_request-eq_ok}
use stellar_invoice_finance.Marketplace.Ended.{confirm_request-eq_ok}
use stellar_invoice_finance.Marketplace.Rates.{HasFees, load_config-HasFees}
use stellar_invoice_finance.Marketplace.Rates.Kept.{as_admin-HasFees}

load_own_listing-HasFees :
    (env : Env) (caller : Address) (id : ℕ) (l : Listing) (s t : Marketplace)
    → Cancellation.load_own_listing env caller id s ≡ ok (l, t)
    → HasFees s
    → HasFees t
unfolding Cancellation.load_own_listing
load_own_listing-HasFees env caller id l s t h v =
    let (k, e) = Option-some (s.listing id) (λ z. ground (arith, h, z)) in
    let ((c, u), f) =
      Outcome-ok (load_config s) (λ x z. ground (arith, h, e, z)) (λ z. ground (arith, h, e, z)) in
    let t_is : t ≡ u = ground (arith, h, e, f) in rw t_is (load_config-HasFees c s u f v)

pub cancel_listing-HasFees :
    (env : Env) (caller : Address) (id : ℕ) (s s' : Marketplace)
    → Cancellation.cancel_listing env caller id s ≡ ok (tt, s')
    → HasFees s
    → HasFees s'
unfolding Cancellation.cancel_listing
cancel_listing-HasFees env caller id s s' h v =
    let (l, t, e, f) = bind-eq_ok (Cancellation.load_own_listing env caller id) _ s (tt, s') h in
    let w = load_own_listing-HasFees env caller id l s t e v in
    let s'' : s' ≡ Cancellation.close_listing id l t = ground (arith, f) in
    rw s'' (record { flat = w.flat; legacy = w.legacy; tiers = w.tiers })

pub request_cancellation-HasFees :
    (env : Env) (caller : Address) (id : ℕ) (s s' : Marketplace)
    → Cancellation.request_cancellation env caller id s ≡ ok (tt, s')
    → HasFees s
    → HasFees s'
unfolding Cancellation.request_cancellation
request_cancellation-HasFees env caller id s s' h v =
    let (l, t, e, f) = bind-eq_ok (Cancellation.load_own_listing env caller id) _ s (tt, s') h in
    let w = load_own_listing-HasFees env caller id l s t e v in
    elim (close_or_request-eq_ok caller id l t s' f) [
      | inl (unfunded, s'') ↦ rw s'' (record { flat = w.flat; legacy = w.legacy; tiers = w.tiers })
      | inr (funded, free, s'') ↦
          rw s'' (record { flat = w.flat; legacy = w.legacy; tiers = w.tiers })
    ]

pub admin_confirm_cancellation-HasFees :
    (env : Env) (a : Address) (id : ℕ) (s s' : Marketplace)
    → Cancellation.admin_confirm_cancellation env a id s ≡ ok (tt, s')
    → HasFees s
    → HasFees s'
unfolding Cancellation.admin_confirm_cancellation
admin_confirm_cancellation-HasFees env a id s s' = as_admin-HasFees env a _ s s' (λ c t g k v.
    let (l, listed, active, s'') = confirm_request-eq_ok id t s' g in
    rw s'' (record { flat = v.flat; legacy = v.legacy; tiers = v.tiers }))

pay_refund-HasFees :
    (tokens : Tokens) (investor : Address) (id : ℕ) (l : Listing) (n : ℤ) (s s' : Marketplace)
    → Cancellation.pay_refund tokens investor id l n s ≡ ok (tt, s')
    → HasFees s
    → HasFees s'
unfolding Cancellation.pay_refund
pay_refund-HasFees tokens investor id l n s s' h v =
    let marked = Cancellation.set_refund_claimed id investor s in
    let (c, t, e, f) =
      bind-eq_ok load_config (λ c. transfer tokens l.token c.financing_pool investor n) marked
        (tt, s') h in
    let w =
      load_config-HasFees c marked t e
        (record { flat = v.flat; legacy = v.legacy; tiers = v.tiers }) in
    let s'' : s' ≡ record t { transfers = s'.transfers } = ground (arith, f) in
    rw s'' (record { flat = w.flat; legacy = w.legacy; tiers = w.tiers })

pub claim_refund-HasFees :
    (env : Env) (tokens : Tokens) (investor : Address) (id : ℕ) (s s' : Marketplace)
    → Cancellation.claim_refund env tokens investor id s ≡ ok (tt, s')
    → HasFees s
    → HasFees s'
unfolding Cancellation.claim_refund
claim_refund-HasFees env tokens investor id s s' h =
    let (l, e) = Option-some (s.listing id) (λ z. ground (arith, h, z)) in
    pay_refund-HasFees tokens investor id l (get_contribution s id investor) s s'
      (ground (arith, h, e))
