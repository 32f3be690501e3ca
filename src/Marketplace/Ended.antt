-- ===== src/Marketplace/Ended.antt =====
-- Cancellations and refunds of contracts/marketplace/src/lib.rs as changes of the book.
use stellar_invoice_finance.Prelude.{
  ℕ, ◌<◌, ◌≡◌, arith, true, false, none, some, ℤ, pos, ◌+ℤ◌, ◌≤ℤ◌, Option-some, get_or, ap, sym,
  ◌∙◌, update, inl, inr, ◌⊎◌, Bool-cases, leb_ℤ-below, [], ◌∷◌, ◌++◌,
}
use stellar_invoice_finance.Shared.{Env, Address, Listing, ok, bind-eq_ok, ◌>>◌}
use stellar_invoice_finance.Shared.Token.{Tokens}
use stellar_invoice_finance.Marketplace.State.{
  Marketplace, MarketplaceConfig, transfer, load_config, load_config_as_admin,
}
use stellar_invoice_finance.Marketplace.Cancellation
use stellar_invoice_finance.Marketplace.Funding.{get_contribution}
use stellar_invoice_finance.Marketplace.Guards.{
  load_config-eq_ok, load_config_as_admin-eq_ok, load_own_listing-eq_ok, close_or_request-eq_ok,
}
use stellar_invoice_finance.Marketplace.Book.{Change, book, put_listing, closed, confirm}

pub cancel_listing-Change :
    (env : Env) (caller : Address) (id : ℕ) (s s' : Marketplace)
    → Cancellation.cancel_listing env caller id s ≡ ok (tt, s')
    → Change env.now (book s) (book s')
unfolding Cancellation.cancel_listing
cancel_listing-Change env caller id s s' h =
    let (l, t, e, f) = bind-eq_ok (Cancellation.load_own_listing env caller id) _ s (tt, s') h in
    let (c, listed, active, auth, t') = load_own_listing-eq_ok env caller id l s t e in
    let s'' : s' ≡ Cancellation.close_listing id l t = ground (arith, f) in
    Change.closes id l listed active (ap book s'' ∙ ap (λ t. put_listing id (closed l) (book t)) t')

pub request_cancellation-Change :
    (env : Env) (caller : Address) (id : ℕ) (s s' : Marketplace)
    → Cancellation.request_cancellation env caller id s ≡ ok (tt, s')
    → Change env.now (book s) (book s')
unfolding Cancellation.request_cancellation
request_cancellation-Change env caller id s s' h =
    let (l, t, e, f) = bind-eq_ok (Cancellation.load_own_listing env caller id) _ s (tt, s') h in
    let (c, listed, active, auth, t') = load_own_listing-eq_ok env caller id l s t e in
    elim (close_or_request-eq_ok caller id l t s' f) [
      | inl (unfunded, s'') ↦
          Change.closes id l listed active
            (ap book s'' ∙ ap (λ t. put_listing id (closed l) (book t)) t')
      | inr (funded, free, s'') ↦ Change.idles (ap book s'' ∙ ap book t')
    ]

pub confirm_request-eq_ok :
    (id : ℕ) (s s' : Marketplace)
    → Cancellation.confirm_request id s ≡ ok (tt, s')
    → (l : Listing) × (s.listing id ≡ some l)
      × (l.is_active ≡ true)
      × (s' ≡ record (Cancellation.close_listing id l s) {
        cancellation_request = update s.cancellation_request id none;
        cancellation_confirmed = update s.cancellation_confirmed id (some true);
      })
unfolding Cancellation.confirm_request
confirm_request-eq_ok id s s' h =
    let (l, e) = Option-some (s.listing id) (λ z. ground (arith, h, z)) in
    (l, e, ground (arith, h, e), ground (arith, h, e))

pub admin_confirm_cancellation-Change :
    (env : Env) (a : Address) (id : ℕ) (s s' : Marketplace)
    → Cancellation.admin_confirm_cancellation env a id s ≡ ok (tt, s')
    → Change env.now (book s) (book s')
unfolding Cancellation.admin_confirm_cancellation
admin_confirm_cancellation-Change env a id s s' h =
    let h0 : (load_config_as_admin a >> Cancellation.confirm_request id) s ≡ ok (tt, s') =
      ground (arith, h) in
    let (c, t, e, f) = bind-eq_ok (load_config_as_admin a) _ s (tt, s') h0 in
    let t' = (load_config_as_admin-eq_ok a c s t e).1 in
    let (l, listed, active, s'') = confirm_request-eq_ok id t s' f in
    Change.confirms id l (ap (λ t. t.listing id) (sym t') ∙ listed) active
      (ap book s'' ∙ ap (λ t. confirm id (put_listing id (closed l) (book t))) t')

pay_refund-eq_ok :
    (tokens : Tokens) (investor : Address) (id : ℕ) (l : Listing) (n : ℤ) (s s' : Marketplace)
    → Cancellation.pay_refund tokens investor id l n s ≡ ok (tt, s')
    → (c : MarketplaceConfig) × (s' ≡ record (Cancellation.set_refund_claimed id investor s) {
      config = some c;
      transfers =
          s.transfers
          ++ record { token = l.token; from = c.financing_pool; to = investor; amount = n } ∷ [];
    })
unfolding Cancellation.pay_refund
pay_refund-eq_ok tokens investor id l n s s' h =
    let marked = Cancellation.set_refund_claimed id investor s in
    let (c, t, e, f) =
      bind-eq_ok load_config (λ c. transfer tokens l.token c.financing_pool investor n) marked
        (tt, s') h in
    let t' = load_config-eq_ok c marked t e in (c, ground (arith, f, t'))

-- What a refund needs, and what it does.
pub claim_refund-eq_ok :
    (env : Env) (tokens : Tokens) (investor : Address) (id : ℕ) (s s' : Marketplace)
    → Cancellation.claim_refund env tokens investor id s ≡ ok (tt, s')
    → (l : Listing) × (c : MarketplaceConfig) × (s.listing id ≡ some l)
      × (env.auth investor ≡ true)
      × (l.funded_amount +ℤ pos 1 ≤ℤ l.asking_price)
      × ((s.cancellation_confirmed id ≡ some true) ⊎ (l.funding_deadline < env.now))
      × (Cancellation.has_claimed s id investor ≡ false)
      × (pos 1 ≤ℤ get_contribution s id investor)
      × (s' ≡ record (Cancellation.set_refund_claimed id investor s) {
        config = some c;
        transfers =
            s.transfers
            ++ record {
              token = l.token;
              from = c.financing_pool;
              to = investor;
              amount = get_contribution s id investor;
            }
              ∷ [];
      })
unfolding Cancellation.claim_refund
claim_refund-eq_ok env tokens investor id s s' h =
    let (l, e) = Option-some (s.listing id) (λ z. ground (arith, h, z)) in
    let paid : Cancellation.pay_refund tokens investor id l (get_contribution s id investor) s
        ≡ ok (tt, s') =
      ground (arith, h, e) in
    let (c, s'') =
      pay_refund-eq_ok tokens investor id l (get_contribution s id investor) s s' paid in
    (
      l,
      c,
      e,
      ground (arith, h),
      leb_ℤ-below l.asking_price l.funded_amount (ground (arith, h, e)),
      confirmed_or_late l e,
      ground (arith, h, e),
      ground (arith, h, e),
      s'',
    )
  where
    confirmed_or_late :
        (l : Listing)
        → s.listing id ≡ some l
        → (s.cancellation_confirmed id ≡ some true) ⊎ (l.funding_deadline < env.now)
    confirmed_or_late l e = elim (Bool-cases (get_or (s.cancellation_confirmed id) false)) [
      | inl c ↦ inl (ground (arith, c))
      | inr c ↦ inr (ground (arith, h, e, c))
    ]

pub claim_refund-Change :
    (env : Env) (tokens : Tokens) (investor : Address) (id : ℕ) (s s' : Marketplace)
    → Cancellation.claim_refund env tokens investor id s ≡ ok (tt, s')
    → Change env.now (book s) (book s')
claim_refund-Change env tokens investor id s s' h =
    let (l, c, e, auth, short, due, unclaimed, some_net, s'') =
      claim_refund-eq_ok env tokens investor id s s' h in
    Change.refunds id l investor e short due unclaimed some_net (ap book s'')
