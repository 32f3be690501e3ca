-- ===== src/Marketplace/Rates/Kept.antt =====
-- The calls of contracts/marketplace/src/lib.rs keep the stored fee rates at 100 % or below.
use stellar_invoice_finance.Prelude.{
  ℕ, ◌≤◌, ◌≡◌, arith, some, ap, ◌∙◌, Every-update, Option-some, update,
}
use stellar_invoice_finance.Shared.{
  Env, Address, Hash, RiskTier, Action, ◌>>=◌, ◌>>◌, require_auth, bind-eq_ok, ok,
  require_auth-eq_ok,
}
use stellar_invoice_finance.Marketplace.State.{
  Marketplace, MarketplaceConfig, load_config, load_config_as_admin, tier_ordinal,
}
use stellar_invoice_finance.Marketplace.Admin
use stellar_invoice_finance.Marketplace.Rates.{HasFees, load_config-fee, load_config-HasFees}

pub as_admin-HasFees :
    (env : Env) (a : Address) (f : MarketplaceConfig → Action Marketplace (Unit {0}))
    (s s' : Marketplace)
    → ((c : MarketplaceConfig) (t : Marketplace)
        → f c t ≡ ok (tt, s')
        → c.fee_bps ≤ 10000
        → HasFees t
        → HasFees s')
    → (require_auth env a >> (load_config_as_admin a >>= f)) s ≡ ok (tt, s')
    → HasFees s
    → HasFees s'
as_admin-HasFees env a f s s' k h v =
    let (auth, h0) = require_auth-eq_ok env a (load_config_as_admin a >>= f) s (tt, s') h in
    let (c, t, e, g) = bind-eq_ok (load_config_as_admin a) f s (tt, s') h0 in
    let (d, u, e1, g1) = bind-eq_ok load_config _ s (c, t) e in
    let c_is : d ≡ c = ground (arith, g1) in
    let t_is : u ≡ t = ground (arith, g1) in
    let loaded : load_config s ≡ ok (c, t) =
      e1 ∙ ap (λ d. ok (d, u)) c_is ∙ ap (λ u. ok (c, u)) t_is in
    k c t g (load_config-fee c s t loaded v) (load_config-HasFees c s t loaded v)

pub initialize-HasFees :
    (a n f t ac rr : Address) (bps : ℕ) (s s' : Marketplace)
    → Admin.initialize a n f t ac rr bps s ≡ ok (tt, s')
    → HasFees s
    → HasFees s'
unfolding Admin.initialize
initialize-HasFees a n f t ac rr bps s s' h v =
    let small : bps ≤ 10000 = ground (arith, h) in
    let c : MarketplaceConfig = record {
      admin = a;
      invoice_nft = n;
      financing_pool = f;
      treasury = t;
      access_control = ac;
      risk_registry = rr;
      fee_bps = bps;
      referrer_split_bps = 0;
    } in
    let e : s' ≡ record s {
      config = some c;
      admin = some a;
      invoice_nft = some n;
      financing_pool = some f;
      treasury = some t;
      access_control = some ac;
      risk_registry = some rr;
      fee_bps = some bps;
    } =
      ground (arith, h) in
    rw e (record { flat = small; legacy = small; tiers = v.tiers })

pub set_referrer_split_bps-HasFees :
    (env : Env) (a : Address) (bps : ℕ) (s s' : Marketplace)
    → Admin.set_referrer_split_bps env a bps s ≡ ok (tt, s')
    → HasFees s
    → HasFees s'
unfolding Admin.set_referrer_split_bps
set_referrer_split_bps-HasFees env a bps s s' = as_admin-HasFees env a _ s s' (λ c t g k v.
    let e : s' ≡ record t { config = some (record c { referrer_split_bps = bps }) } =
      ground (arith, g) in
    rw e (record { flat = k; legacy = v.legacy; tiers = v.tiers }))

pub set_fee_bps-HasFees :
    (env : Env) (a : Address) (bps : ℕ) (s s' : Marketplace)
    → Admin.set_fee_bps env a bps s ≡ ok (tt, s')
    → HasFees s
    → HasFees s'
unfolding Admin.set_fee_bps
set_fee_bps-HasFees env a bps s s' = as_admin-HasFees env a _ s s' (λ c t g k v.
    let small : bps ≤ 10000 = ground (arith, g) in
    let e : s' ≡ record t { config = some (record c { fee_bps = bps }) } = ground (arith, g) in
    rw e (record { flat = small; legacy = v.legacy; tiers = v.tiers }))

pub set_tier_fee_bps-HasFees :
    (env : Env) (a : Address) (tier : RiskTier) (bps : ℕ) (s s' : Marketplace)
    → Admin.set_tier_fee_bps env a tier bps s ≡ ok (tt, s')
    → HasFees s
    → HasFees s'
unfolding Admin.set_tier_fee_bps
set_tier_fee_bps-HasFees env a tier bps s s' = as_admin-HasFees env a _ s s' (λ c t g k v.
    let small : bps ≤ 10000 = ground (arith, g) in
    let e : s' ≡ record t { tier_fee_bps = update t.tier_fee_bps (tier_ordinal tier) (some bps) } =
      ground (arith, g) in
    rw e (record {
      flat = v.flat;
      legacy = v.legacy;
      tiers =
          Every-update (λ (n : ℕ). n ≤ 10000) t.tier_fee_bps (tier_ordinal tier) bps v.tiers small;
    }))

pub whitelist_token-HasFees :
    (env : Env) (a token : Address) (s s' : Marketplace)
    → Admin.whitelist_token env a token s ≡ ok (tt, s')
    → HasFees s
    → HasFees s'
unfolding Admin.whitelist_token
whitelist_token-HasFees env a token s s' = as_admin-HasFees env a _ s s' (λ c t g k v.
    let e : s' ≡ record t { whitelisted_token = s'.whitelisted_token } = ground (arith, g) in
    rw e (record { flat = v.flat; legacy = v.legacy; tiers = v.tiers }))

pub remove_token_whitelist-HasFees :
    (env : Env) (a token : Address) (s s' : Marketplace)
    → Admin.remove_token_whitelist env a token s ≡ ok (tt, s')
    → HasFees s
    → HasFees s'
unfolding Admin.remove_token_whitelist
remove_token_whitelist-HasFees env a token s s' = as_admin-HasFees env a _ s s' (λ c t g k v.
    let e : s' ≡ record t { whitelisted_token = s'.whitelisted_token } = ground (arith, g) in
    rw e (record { flat = v.flat; legacy = v.legacy; tiers = v.tiers }))

pub propose_upgrade-HasFees :
    (env : Env) (a : Address) (x : Hash) (s s' : Marketplace)
    → Admin.propose_upgrade env a x s ≡ ok (tt, s')
    → HasFees s
    → HasFees s'
unfolding Admin.propose_upgrade
propose_upgrade-HasFees env a x s s' = as_admin-HasFees env a _ s s' (λ c t g k v.
    let e : s' ≡ record t { upgrade_proposal = s'.upgrade_proposal } = ground (arith, g) in
    rw e (record { flat = v.flat; legacy = v.legacy; tiers = v.tiers }))

execute_proposal-HasFees :
    (env : Env) (s s' : Marketplace)
    → Admin.execute_proposal env s ≡ ok (tt, s')
    → HasFees s
    → HasFees s'
unfolding Admin.execute_proposal
execute_proposal-HasFees env s s' h v =
    let ((x, t), f) = Option-some s.upgrade_proposal (λ z. ground (arith, h, z)) in
    let e : s' ≡ record s { upgrade_proposal = s'.upgrade_proposal; wasm = s'.wasm } =
      ground (arith, h, f) in
    rw e (record { flat = v.flat; legacy = v.legacy; tiers = v.tiers })

pub execute_upgrade-HasFees :
    (env : Env) (a : Address) (s s' : Marketplace)
    → Admin.execute_upgrade env a s ≡ ok (tt, s')
    → HasFees s
    → HasFees s'
unfolding Admin.execute_upgrade
execute_upgrade-HasFees env a s s' =
    as_admin-HasFees env a _ s s' (λ c t g k v. execute_proposal-HasFees env t s' g v)
