-- ===== src/Marketplace/Kept.antt =====
-- Calls of contracts/marketplace/src/lib.rs that leave every listing and refund as it is.
use stellar_invoice_finance.Prelude.{ℕ, ◌≡◌, arith, Option-some, ap, ◌∙◌}
use stellar_invoice_finance.Shared.{
  Env, Address, Hash, RiskTier, ok, bind-eq_ok, Action, ◌>>=◌, ◌>>◌, require_auth,
}
use stellar_invoice_finance.Marketplace.State.{Marketplace, MarketplaceConfig, load_config_as_admin}
use stellar_invoice_finance.Marketplace.Admin
use stellar_invoice_finance.Marketplace.Guards.{load_config_as_admin-eq_ok}
use stellar_invoice_finance.Marketplace.Book.{book}

-- An action that begins by loading the config for the admin and then keeps the book.
as_admin-book :
    (env : Env) (a : Address) (f : MarketplaceConfig → Action Marketplace (Unit {0}))
    (s s' : Marketplace)
    → ((c : MarketplaceConfig) (t : Marketplace) → f c t ≡ ok (tt, s') → book s' ≡ book t)
    → (require_auth env a >> (load_config_as_admin a >>= f)) s ≡ ok (tt, s')
    → book s' ≡ book s
as_admin-book env a f s s' k h =
    let h0 : (load_config_as_admin a >>= f) s ≡ ok (tt, s') = ground (arith, h) in
    let (c, t, e, g) = bind-eq_ok (load_config_as_admin a) f s (tt, s') h0 in
    k c t g ∙ ap book (load_config_as_admin-eq_ok a c s t e).1

pub initialize-book :
    (a n f t ac rr : Address) (bps : ℕ) (s s' : Marketplace)
    → Admin.initialize a n f t ac rr bps s ≡ ok (tt, s')
    → book s' ≡ book s
unfolding Admin.initialize
initialize-book a n f t ac rr bps s s' h = ground (arith, h)

pub set_referrer_split_bps-book :
    (env : Env) (a : Address) (bps : ℕ) (s s' : Marketplace)
    → Admin.set_referrer_split_bps env a bps s ≡ ok (tt, s')
    → book s' ≡ book s
unfolding Admin.set_referrer_split_bps
set_referrer_split_bps-book env a bps s s' = as_admin-book env a _ s s' (λ c t g. ground (arith, g))

pub set_fee_bps-book :
    (env : Env) (a : Address) (bps : ℕ) (s s' : Marketplace)
    → Admin.set_fee_bps env a bps s ≡ ok (tt, s')
    → book s' ≡ book s
unfolding Admin.set_fee_bps
set_fee_bps-book env a bps s s' = as_admin-book env a _ s s' (λ c t g. ground (arith, g))

pub set_tier_fee_bps-book :
    (env : Env) (a : Address) (tier : RiskTier) (bps : ℕ) (s s' : Marketplace)
    → Admin.set_tier_fee_bps env a tier bps s ≡ ok (tt, s')
    → book s' ≡ book s
unfolding Admin.set_tier_fee_bps
set_tier_fee_bps-book env a tier bps s s' = as_admin-book env a _ s s' (λ c t g. ground (arith, g))

pub whitelist_token-book :
    (env : Env) (a token : Address) (s s' : Marketplace)
    → Admin.whitelist_token env a token s ≡ ok (tt, s')
    → book s' ≡ book s
unfolding Admin.whitelist_token
whitelist_token-book env a token s s' = as_admin-book env a _ s s' (λ c t g. ground (arith, g))

pub remove_token_whitelist-book :
    (env : Env) (a token : Address) (s s' : Marketplace)
    → Admin.remove_token_whitelist env a token s ≡ ok (tt, s')
    → book s' ≡ book s
unfolding Admin.remove_token_whitelist
remove_token_whitelist-book env a token s s' =
    as_admin-book env a _ s s' (λ c t g. ground (arith, g))

pub propose_upgrade-book :
    (env : Env) (a : Address) (x : Hash) (s s' : Marketplace)
    → Admin.propose_upgrade env a x s ≡ ok (tt, s')
    → book s' ≡ book s
unfolding Admin.propose_upgrade
propose_upgrade-book env a x s s' = as_admin-book env a _ s s' (λ c t g. ground (arith, g))

execute-book :
    (env : Env) (s s' : Marketplace) → Admin.execute_proposal env s ≡ ok (tt, s') → book s' ≡ book s
unfolding Admin.execute_proposal
execute-book env s s' h =
    let ((x, t), e) = Option-some s.upgrade_proposal (λ z. ground (arith, h, z)) in
    ground (arith, h, e)

pub execute_upgrade-book :
    (env : Env) (a : Address) (s s' : Marketplace)
    → Admin.execute_upgrade env a s ≡ ok (tt, s')
    → book s' ≡ book s
unfolding Admin.execute_upgrade
execute_upgrade-book env a s s' = as_admin-book env a _ s s' (λ c t g. execute-book env t s' g)
