-- ===== src/Marketplace/Rates.antt =====
-- The fee rates that contracts/marketplace/src/lib.rs stores, and what loading the config keeps.
pub mod Kept
pub mod Closing
pub mod Reached
use stellar_invoice_finance.Prelude.{
  ℕ, ◌≤◌, ◌≡◌, arith, some, ap, ◌∙◌, sym, Every, Every-some, Every-update, Option-cases,
  Option-some, inl, inr, true, false, none, ◌≤ℤ◌, pos,
}
use stellar_invoice_finance.Shared.{
  Env, Address, Listing, Outcome, Outcome-ok, Action, ◌>>=◌, ◌>>◌, require_auth, bind-eq_ok, ok,
  ok_or-eq_ok, not_initialized,
}
use stellar_invoice_finance.Marketplace.State.{
  Marketplace, MarketplaceConfig, load_config, legacy_config, load_config_as_admin,
}
use stellar_invoice_finance.Marketplace.Guards.{load_config-eq_ok}

-- No stored rate is above 100 %.
pub record HasFees (s : Marketplace) : Type 0 where
  pub flat : Every (λ (c : MarketplaceConfig). c.fee_bps ≤ 10000) s.config
  pub legacy : Every (λ (n : ℕ). n ≤ 10000) s.fee_bps
  pub tiers : (n : ℕ) → Every (λ (n : ℕ). n ≤ 10000) (s.tier_fee_bps n)

legacy_config-fee :
    (c : MarketplaceConfig) (s t : Marketplace)
    → legacy_config s ≡ ok (c, t)
    → s.fee_bps ≡ some c.fee_bps
unfolding legacy_config
legacy_config-fee c s t h =
    let r : MarketplaceConfig × Marketplace = (c, t) in
    let (a1, e1, h1) = ok_or-eq_ok s.admin not_initialized _ s r h in
    let (a2, e2, h2) = ok_or-eq_ok s.invoice_nft not_initialized _ s r h1 in
    let (a3, e3, h3) = ok_or-eq_ok s.financing_pool not_initialized _ s r h2 in
    let (a4, e4, h4) = ok_or-eq_ok s.treasury not_initialized _ s r h3 in
    let (a5, e5, h5) = ok_or-eq_ok s.access_control not_initialized _ s r h4 in
    let (a6, e6, h6) = ok_or-eq_ok s.fee_bps not_initialized _ s r h5 in
    let (a7, e7, h7) = ok_or-eq_ok s.risk_registry not_initialized _ s r h6 in
    e6 ∙ returns c s t _ h7
  where
    returns :
        (c : MarketplaceConfig) (s t : Marketplace) (d : MarketplaceConfig)
        → ◌≡◌ {A = Outcome (MarketplaceConfig × Marketplace)}
            (ok (d, record s { config = some d }))
            (ok (c, t))
        → some d.fee_bps ≡ some c.fee_bps
    returns c s t d h = ground (arith, h)

pub load_config-fee :
    (c : MarketplaceConfig) (s t : Marketplace)
    → load_config s ≡ ok (c, t)
    → HasFees s
    → c.fee_bps ≤ 10000
unfolding load_config
load_config-fee c s t h v = elim (Option-cases s.config) [
  | inl e ↦
      Every-some (λ (n : ℕ). n ≤ 10000) s.fee_bps c.fee_bps v.legacy
        (legacy_config-fee c s t (ground (arith, h, e)))
  | inr (d, e) ↦
      Every-some (λ (c : MarketplaceConfig). c.fee_bps ≤ 10000) s.config c v.flat
        (ground (arith, h, e))
]

pub load_config-HasFees :
    (c : MarketplaceConfig) (s t : Marketplace) → load_config s ≡ ok (c, t) → HasFees s → HasFees t
load_config-HasFees c s t h v =
    rw (load_config-eq_ok c s t h)
      (record { flat = load_config-fee c s t h v; legacy = v.legacy; tiers = v.tiers })
