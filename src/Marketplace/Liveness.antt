-- ===== src/Marketplace/Liveness.antt =====
-- A cancellation in two phases in contracts/marketplace/src/lib.rs, up to the refund.
use stellar_invoice_finance.Prelude.{
  ℕ, ◌≤◌, ◌<◌, ◌≡◌, refl, arith, true, false, none, some, pos, update, [], ◌∷◌, ◌++◌, if◌then◌else◌,
}
use stellar_invoice_finance.Shared.{Env, Address, Listing, ok, panic}
use stellar_invoice_finance.Shared.Token.{Tokens, Transfer}
use stellar_invoice_finance.Marketplace.State.{Marketplace, MarketplaceConfig, load_config}
use stellar_invoice_finance.Marketplace.Funding.{get_contribution}
use stellar_invoice_finance.Marketplace.Cancellation

load_config_stored :
    (s : Marketplace) (c : MarketplaceConfig) → s.config ≡ some c → load_config s ≡ ok (c, s)
unfolding load_config
load_config_stored s c e = ground (arith, e)

abbrev pub requested : ℕ → Address → Marketplace → Marketplace
requested id caller s = record s {
  cancellation_request = update s.cancellation_request id (some caller);
}

request_cancellation_waits :
    (env : Env) (c : MarketplaceConfig) (l : Listing) (id m : ℕ) (s : Marketplace)
    → env.auth l.seller ≡ true
    → s.config ≡ some c
    → s.listing id ≡ some l
    → l.is_active ≡ true
    → l.funded_amount ≡ pos m
    → 1 ≤ m
    → s.cancellation_request id ≡ none
    → Cancellation.request_cancellation env l.seller id s ≡ ok (tt, requested id l.seller s)
unfolding Cancellation.request_cancellation Cancellation.load_own_listing
    Cancellation.close_or_request
request_cancellation_waits env c l id m s auth e h a f g free =
    ground (arith, auth, h, a, f, g, free, load_config_stored s c e)

abbrev pub confirmed : ℕ → Listing → Marketplace → Marketplace
confirmed id l s = record (Cancellation.close_listing id l s) {
  cancellation_request = update s.cancellation_request id none;
  cancellation_confirmed = update s.cancellation_confirmed id (some true);
}

admin_confirm_cancellation_closes :
    (env : Env) (c : MarketplaceConfig) (l : Listing) (id : ℕ) (caller : Address) (s : Marketplace)
    → env.auth c.admin ≡ true
    → s.config ≡ some c
    → s.listing id ≡ some l
    → l.is_active ≡ true
    → Cancellation.admin_confirm_cancellation env c.admin id (requested id caller s)
      ≡ ok (tt, confirmed id l (requested id caller s))
unfolding Cancellation.admin_confirm_cancellation Cancellation.confirm_request
admin_confirm_cancellation_closes env c l id caller s auth e h a =
    ground (arith, auth, h, a, load_config_stored (requested id caller s) c e)

abbrev pub refund : Listing → MarketplaceConfig → Address → ℕ → Transfer
refund l c investor k = record {
  token = l.token;
  from = c.financing_pool;
  to = investor;
  amount = pos k;
}

-- The refund marked and asked for.
abbrev pub refunded : Listing → MarketplaceConfig → ℕ → Address → ℕ → Marketplace → Marketplace
refunded l c id investor k s = record (Cancellation.set_refund_claimed id investor s) {
  transfers = s.transfers ++ refund l c investor k ∷ [];
}

pay_refund_pays :
    (tokens : Tokens) (c : MarketplaceConfig) (l : Listing) (id k : ℕ) (investor : Address)
    (s : Marketplace)
    → s.config ≡ some c
    → Cancellation.pay_refund tokens investor id l (pos k) s ≡ (
        if tokens.accepts s.transfers (refund l c investor k)
        then ok (tt, refunded l c id investor k s)
        else panic)
unfolding Cancellation.pay_refund
pay_refund_pays tokens c l id k investor s e =
    ground (arith, load_config_stored (Cancellation.set_refund_claimed id investor s) c e)

claim_refund_pays :
    (env : Env) (tokens : Tokens) (c : MarketplaceConfig) (l : Listing) (id m n k : ℕ)
    (investor : Address) (s : Marketplace)
    → env.auth investor ≡ true
    → s.config ≡ some c
    → s.listing id ≡ some l
    → l.funded_amount ≡ pos m
    → l.asking_price ≡ pos n
    → m < n
    → s.cancellation_confirmed id ≡ some true
    → Cancellation.has_claimed s id investor ≡ false
    → get_contribution s id investor ≡ pos k
    → 1 ≤ k
    → Cancellation.claim_refund env tokens investor id s ≡ (
        if tokens.accepts s.transfers (refund l c investor k)
        then ok (tt, refunded l c id investor k s)
        else panic)
unfolding Cancellation.claim_refund
claim_refund_pays env tokens c l id m n k investor s auth e h f g b d u q p =
    let paid = pay_refund_pays tokens c l id k investor s e in
    ground (arith, auth, h, f, g, b, d, u, q, p, paid)

-- A seller who asks for the cancellation of an active listing with a part of its funding gets it
-- once the admin confirms it: both calls succeed where their callers sign them, no request is
-- pending and the config is stored. Then an investor with a positive net contribution who has not
-- claimed passes every check of `claim_refund`, before the deadline too: the claim ends as the
-- token's transfer of exactly that contribution from the financing pool does. If the token accepts
-- the transfer, the claim succeeds, with this one transfer and the refund marked as claimed; if the
-- token rejects it, the claim traps.
pub cancellation_is_refunded :
    (seller_env admin_env investor_env : Env) (tokens : Tokens) (c : MarketplaceConfig)
    (l : Listing) (id m n k : ℕ) (investor : Address) (s : Marketplace)
    → seller_env.auth l.seller ≡ true
    → admin_env.auth c.admin ≡ true
    → investor_env.auth investor ≡ true
    → s.config ≡ some c
    → s.listing id ≡ some l
    → l.is_active ≡ true
    → l.funded_amount ≡ pos m
    → 1 ≤ m
    → l.asking_price ≡ pos n
    → m < n
    → s.cancellation_request id ≡ none
    → Cancellation.has_claimed s id investor ≡ false
    → get_contribution s id investor ≡ pos k
    → 1 ≤ k
    → (s1 s2 s3 : Marketplace) × (Cancellation.request_cancellation seller_env l.seller id s
        ≡ ok (tt, s1))
      × (Cancellation.admin_confirm_cancellation admin_env c.admin id s1 ≡ ok (tt, s2))
      × (Cancellation.claim_refund investor_env tokens investor id s2
          ≡ (if tokens.accepts s.transfers (refund l c investor k) then ok (tt, s3) else panic))
      × (s3.transfers ≡ s.transfers ++ refund l c investor k ∷ [])
      × (Cancellation.has_claimed s3 id investor ≡ true)
cancellation_is_refunded seller_env admin_env investor_env tokens c l id m n k investor s by_seller
      by_admin by_investor e h a f g asking below free unclaimed net p =
    let s1 = requested id l.seller s in
    let s2 = confirmed id l s1 in
    (
      s1,
      s2,
      _,
      request_cancellation_waits seller_env c l id m s by_seller e h a f g free,
      admin_confirm_cancellation_closes admin_env c l id l.seller s by_admin e h a,
      claim_refund_pays investor_env tokens c (record l { is_active = false }) id m n k investor s2
          by_investor e (ground arith) f asking below (ground arith) unclaimed net p,
      refl,
      ground arith,
    )
