-- ===== src/Marketplace/Listed.antt =====
-- `list_invoice` of contracts/marketplace/src/lib.rs as a change of the book.
use stellar_invoice_finance.Prelude.{
  ℕ, ◌≡◌, arith, true, false, not, Option, none, some, ℤ, pos, ◌≤ℤ◌, ap, sym, ◌∙◌, eq_ℤ, is_some,
}
use stellar_invoice_finance.Shared.{
  Env, Address, Listing, Invoice, Action, ok, Outcome-ok, bind-eq_ok, reject_if-eq_ok, same_state,
  enter, modify, invalid_amount,
}
use stellar_invoice_finance.AccessControl.State.{AccessControl}
use stellar_invoice_finance.RiskRegistry.State.{RiskRegistry, is_compliance_attested}
use stellar_invoice_finance.Shared.Validation.{require_non_zero_amount}
use stellar_invoice_finance.InvoiceNft.State.{InvoiceNft, get_invoice, current}
use stellar_invoice_finance.InvoiceNft.Lifecycle.{set_listed}
use stellar_invoice_finance.Marketplace.State.{
  Marketplace, MarketplaceConfig, World, load_config, in_market, call_nft, save_listing,
  require_not_paused, require_compliance_attested, require_whitelisted_token,
}
use stellar_invoice_finance.Marketplace.Listings
use stellar_invoice_finance.Marketplace.Rates.{HasFees, load_config-HasFees}
use stellar_invoice_finance.Marketplace.Guards.{load_config-eq_ok}
use stellar_invoice_finance.Marketplace.Book.{book, put_listing}

pub in_market-eq_ok :
    {A : Type 0} (m : Action Marketplace A) (a : A) (w w' : World)
    → in_market m w ≡ ok (a, w')
    → (m w.market ≡ ok (a, w'.market)) × (w' ≡ record w { market = w'.market })
in_market-eq_ok m a w w' h =
    let ((b, t), e) =
      Outcome-ok (m w.market) (λ x z. ground (arith, h, z)) (λ z. ground (arith, h, z)) in
    (ground (arith, h, e), ground (arith, h, e))

pub call_nft-eq_ok :
    {A : Type 0} (m : Action InvoiceNft A) (a : A) (w w' : World)
    → call_nft m w ≡ ok (a, w')
    → (m w.pools.nft ≡ ok (a, w'.pools.nft)) × (w'.market ≡ w.market)
call_nft-eq_ok m a w w' h =
    let ((b, t), e) =
      Outcome-ok (m w.pools.nft) (λ x z. ground (arith, h, z)) (λ z. ground (arith, h, z)) in
    (ground (arith, h, e), ground (arith, h, e))

save_referrer-book :
    (seller : Address) (id : ℕ) (r : Option Address) (s s' : Marketplace)
    → Listings.save_referrer seller id r s ≡ ok (tt, s')
    → book s' ≡ book s
unfolding Listings.save_referrer
save_referrer-book seller id none s s' h = ground (arith, h)
save_referrer-book seller id (some r) s s' h = ground (arith, h)

eq_ℤ→≡ : (a b : ℤ) → not (eq_ℤ a b) ≡ false → a ≡ b
eq_ℤ→≡ a b h = ground (arith, h)

pub get_invoice-eq_ok :
    (id : ℕ) (i : Invoice) (s t : InvoiceNft)
    → get_invoice id s ≡ ok (i, t)
    → (s.invoice id ≡ some (current i)) × (t ≡ s)
get_invoice-eq_ok id i s t h = (ground (arith, h), ground (arith, h))

save_referrer-HasFees :
    (seller : Address) (id : ℕ) (r : Option Address) (s s' : Marketplace)
    → Listings.save_referrer seller id r s ≡ ok (tt, s')
    → HasFees s
    → HasFees s'
unfolding Listings.save_referrer
save_referrer-HasFees seller id none s s' h v = let e : s' ≡ s = ground (arith, h) in rw e v
save_referrer-HasFees seller id (some r) s s' h v =
    let e : s' ≡ record s { referrer = s'.referrer } = ground (arith, h) in
    rw e (record { flat = v.flat; legacy = v.legacy; tiers = v.tiers })

enter_listing-eq_ok :
    (env : Env) (ac : AccessControl) (a : Address) (l : Listing) (w w' : World)
    → Listings.enter_listing env ac a l w ≡ ok (tt, w')
    → (i : Invoice) × (w.pools.nft.invoice l.invoice_id ≡ some (current i))
      × (i.amount ≡ l.face_value)
      × (set_listed (enter env a) ac env.self l.invoice_id w.pools.nft ≡ ok (tt, w'.pools.nft))
      × (w'.market ≡ save_listing l.invoice_id l w.market)
unfolding Listings.enter_listing
enter_listing-eq_ok env ac a l w w' h =
    let (i, t, e, f) = bind-eq_ok (call_nft (get_invoice l.invoice_id)) _ w (tt, w') h in
    let (got, got_market) = call_nft-eq_ok (get_invoice l.invoice_id) i w t e in
    let (found, same) = get_invoice-eq_ok l.invoice_id i w.pools.nft t.pools.nft got in
    let (same_amount, g) =
      reject_if-eq_ok (not (eq_ℤ i.amount l.face_value)) invalid_amount _ t (tt, w') f in
    let (u, v, k, m) =
      bind-eq_ok (call_nft (set_listed (enter env a) ac env.self l.invoice_id))
        (λ x. in_market (modify (save_listing l.invoice_id l))) t (tt, w') g in
    let (called, called_market) =
      call_nft-eq_ok (set_listed (enter env a) ac env.self l.invoice_id) tt t v k in
    let (n, w'') = in_market-eq_ok (modify (save_listing l.invoice_id l)) tt v w' m in
    (
      i,
      found,
      eq_ℤ→≡ i.amount l.face_value same_amount,
      ap (set_listed (enter env a) ac env.self l.invoice_id) (sym same)
          ∙ called
          ∙ ap (λ w. ok (tt, w.pools.nft)) (sym w''),
      sym (same_state tt tt _ w'.market n)
          ∙ ap (save_listing l.invoice_id l) (called_market ∙ got_market),
    )

-- A listing entered in the book is of an invoice whose amount is its face value, which the NFT
-- contract marked listed in the same call.
pub enlist-eq_ok :
    (env : Env) (ac : AccessControl) (r : Option Address) (l : Listing) (w w' : World)
    → Listings.enlist env ac r l w ≡ ok (tt, w')
    → (a : Address) × (i : Invoice) × (w.pools.nft.invoice l.invoice_id ≡ some (current i))
      × (i.amount ≡ l.face_value)
      × (set_listed (enter env a) ac env.self l.invoice_id w.pools.nft ≡ ok (tt, w'.pools.nft))
      × (book w'.market ≡ put_listing l.invoice_id l (book w.market))
      × (HasFees w.market → HasFees w'.market)
unfolding Listings.enlist
enlist-eq_ok env ac r l w w' h =
    let (c, w1, e1, h1) = bind-eq_ok (in_market load_config) _ w (tt, w') h in
    let (u, w2, e2, h2) =
      bind-eq_ok (in_market (Listings.save_referrer l.seller l.invoice_id r))
        (λ x. Listings.enter_listing env ac c.invoice_nft l) w1 (tt, w') h1 in
    let (loaded, w1') = in_market-eq_ok load_config c w w1 e1 in
    let (saved, w2') =
      in_market-eq_ok (Listings.save_referrer l.seller l.invoice_id r) tt w1 w2 e2 in
    let (i, found, amount, called, stored) = enter_listing-eq_ok env ac c.invoice_nft l w2 w' h2 in
    let nft_is : w2.pools.nft ≡ w.pools.nft =
      ap (λ w. w.pools.nft) w2' ∙ ap (λ w. w.pools.nft) w1' in
    let book_is : book w2.market ≡ book w.market =
      save_referrer-book l.seller l.invoice_id r w1.market w2.market saved
      ∙ ap book (load_config-eq_ok c w.market w1.market loaded) in
    (
      c.invoice_nft,
      i,
      ap (λ n. n.invoice l.invoice_id) (sym nft_is) ∙ found,
      amount,
      ap (set_listed (enter env c.invoice_nft) ac env.self l.invoice_id) (sym nft_is) ∙ called,
      ap book stored ∙ ap (put_listing l.invoice_id l) book_is,
      kept c w.market w1.market w2.market w'.market loaded saved stored,
    )
  where
    kept :
        (c : MarketplaceConfig) (s t u : Marketplace) (s' : Marketplace)
        → load_config s ≡ ok (c, t)
        → Listings.save_referrer l.seller l.invoice_id r t ≡ ok (tt, u)
        → s' ≡ save_listing l.invoice_id l u
        → HasFees s
        → HasFees s'
    kept c s t u s' a b e v =
        let x =
          save_referrer-HasFees l.seller l.invoice_id r t u b (load_config-HasFees c s t a v) in
        rw e (record { flat = x.flat; legacy = x.legacy; tiers = x.tiers })

pub require_not_paused-eq_ok :
    (ac : AccessControl) (s t : Marketplace) → require_not_paused ac s ≡ ok (tt, t) → t ≡ s
require_not_paused-eq_ok ac s t h = ground (arith, h)

pub require_whitelisted-eq_ok :
    (token : Address) (s t : Marketplace) → require_whitelisted_token token s ≡ ok (tt, t) → t ≡ s
require_whitelisted-eq_ok token s t h = ground (arith, h)

pub free_slot : (o : Option Listing) → is_some o ≡ false → o ≡ none
free_slot o h = ground (arith, h)

pub positive : (n : ℤ) → require_non_zero_amount n ≡ ok tt → pos 1 ≤ℤ n
positive n h = ground (arith, h)

pub require_compliance-HasFees :
    (rr : RiskRegistry) (sme : Address) (s t : Marketplace)
    → require_compliance_attested rr sme s ≡ ok (tt, t)
    → HasFees s
    → HasFees t
require_compliance-HasFees rr sme s t h v =
    let (c, u, e, f) = bind-eq_ok load_config _ s (tt, t) h in
    let t' : t ≡ u = ground (arith, f) in rw t' (load_config-HasFees c s u e v)

pub require_compliance-book :
    (rr : RiskRegistry) (sme : Address) (s t : Marketplace)
    → require_compliance_attested rr sme s ≡ ok (tt, t)
    → (is_compliance_attested rr sme ≡ true) × (book t ≡ book s)
require_compliance-book rr sme s t h =
    let (c, u, e, f) = bind-eq_ok load_config _ s (tt, t) h in
    let u' = load_config-eq_ok c s u e in
    let t' : t ≡ u = ground (arith, f) in (ground (arith, f), ap book t' ∙ ap book u')
