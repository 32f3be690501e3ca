-- ===== src/Marketplace/Guards.antt =====
-- contracts/marketplace/src/lib.rs: what the steps that its calls share do where they succeed.
use stellar_invoice_finance.Prelude.{
  ℕ, ◌≡◌, arith, true, none, some, pos, inl, inr, Option-cases, Option-some, Option, ◌⊎◌, ◌≢◌,
  Bool-cases, eq_ℤ, update,
}
use stellar_invoice_finance.Shared.{
  Env, Address, Listing, ok, bind-eq_ok, Outcome, Outcome-ok, Action, ok_or, ◌>>=◌, not_initialized,
}
use stellar_invoice_finance.Marketplace.State.{
  Marketplace, MarketplaceConfig, load_config, legacy_config, load_config_as_admin,
}
use stellar_invoice_finance.Marketplace.Cancellation.{
  load_own_listing, close_or_request, close_listing,
}

key-eq_ok :
    {A B : Type 0} (key : Option A) (f : A → Action Marketplace B) (s : Marketplace)
    (r : B × Marketplace)
    → (ok_or key not_initialized >>= f) s ≡ ok r
    → (a : A) × (f a s ≡ ok r)
key-eq_ok none f s r h = absurd (ground (arith, h))
key-eq_ok (some a) f s r h = (a, h)

legacy_config-eq_ok :
    (c : MarketplaceConfig) (s t : Marketplace)
    → legacy_config s ≡ ok (c, t)
    → t ≡ record s { config = some c }
unfolding legacy_config
legacy_config-eq_ok c s t h =
    let r : MarketplaceConfig × Marketplace = (c, t) in
    let (a1, h1) = key-eq_ok s.admin _ s r h in
    let (a2, h2) = key-eq_ok s.invoice_nft _ s r h1 in
    let (a3, h3) = key-eq_ok s.financing_pool _ s r h2 in
    let (a4, h4) = key-eq_ok s.treasury _ s r h3 in
    let (a5, h5) = key-eq_ok s.access_control _ s r h4 in
    let (a6, h6) = key-eq_ok s.fee_bps _ s r h5 in
    let (a7, h7) = key-eq_ok s.risk_registry _ s r h6 in stores c s t _ h7
  where
    stores :
        (c : MarketplaceConfig) (s t : Marketplace) (d : MarketplaceConfig)
        → ◌≡◌ {A = Outcome (MarketplaceConfig × Marketplace)}
            (ok (d, record s { config = some d }))
            (ok (c, t))
        → t ≡ record s { config = some c }
    stores c s t d h = ground (arith, h)

-- It stores the config that it returns.
pub load_config-eq_ok :
    (c : MarketplaceConfig) (s t : Marketplace)
    → load_config s ≡ ok (c, t)
    → t ≡ record s { config = some c }
unfolding load_config
load_config-eq_ok c s t h = elim (Option-cases s.config) [
  | inl e ↦ legacy_config-eq_ok c s t (ground (arith, h, e))
  | inr (d, e) ↦ ground (arith, h, e)
]

pub load_config_as_admin-eq_ok :
    (a : Address) (c : MarketplaceConfig) (s t : Marketplace)
    → load_config_as_admin a s ≡ ok (c, t)
    → (c.admin ≡ a) × (t ≡ record s { config = some c })
load_config_as_admin-eq_ok a c s t h =
    let (d, u, e, f) = bind-eq_ok load_config _ s (c, t) h in
    let u' = load_config-eq_ok d s u e in (ground (arith, f), ground (arith, f, u'))

pub load_own_listing-eq_ok :
    (env : Env) (caller : Address) (id : ℕ) (l : Listing) (s t : Marketplace)
    → load_own_listing env caller id s ≡ ok (l, t)
    → (c : MarketplaceConfig) × (s.listing id ≡ some l)
      × (l.is_active ≡ true)
      × (env.auth caller ≡ true)
      × (t ≡ record s { config = some c })
unfolding load_own_listing
load_own_listing-eq_ok env caller id l s t h =
    let (k, e) = Option-some (s.listing id) (λ z. ground (arith, h, z)) in
    let ((c, u), f) =
      Outcome-ok (load_config s) (λ x z. ground (arith, h, e, z)) (λ z. ground (arith, h, e, z)) in
    let u' = load_config-eq_ok c s u f in
    (
      c,
      ground (arith, h, e, f),
      ground (arith, h, e, f),
      ground (arith, h),
      ground (arith, h, e, f, u'),
    )

pub close_or_request-eq_ok :
    (caller : Address) (id : ℕ) (l : Listing) (s s' : Marketplace)
    → close_or_request caller id l s ≡ ok (tt, s')
    → ((l.funded_amount ≡ pos 0) × (s' ≡ close_listing id l s))
      ⊎ ((l.funded_amount ≢ pos 0)
          × (s.cancellation_request id ≡ none)
          × (s'
              ≡ record s { cancellation_request = update s.cancellation_request id (some caller) }))
unfolding close_or_request
close_or_request-eq_ok caller id l s s' h = elim (Bool-cases (eq_ℤ l.funded_amount (pos 0))) [
  | inl e ↦ inl (ground (arith, e), ground (arith, h, e))
  | inr e ↦ inr (ground (arith, e), ground (arith, h, e), ground (arith, h, e))
]
