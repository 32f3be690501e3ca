-- ===== src/Marketplace/Completion.antt =====
-- The contribution that completes a listing: contracts/marketplace/src/lib.rs calls
-- contracts/financing_pool/src/lib.rs, which calls contracts/invoice_nft/src/lib.rs.
use stellar_invoice_finance.Prelude.{
  ℕ, ◌+◌, ◌≤◌, ◌≡◌, arith, true, false, Option, none, some, pos, ◌+ℤ◌, ◌≤ℤ◌, +ℤ_pos, ap, sym, ◌∙◌,
  inl, inr, leb_ℤ, if◌then◌else◌, update, ◌==◌,
}
use stellar_invoice_finance.Shared.{Env, Address, Listing, Invoice, InvoiceStatus, Pool, ok, enter}
use stellar_invoice_finance.Shared.Token.{Tokens}
use stellar_invoice_finance.AccessControl.State.{AccessControl}
use stellar_invoice_finance.InvoiceNft.State.{InvoiceNft, Stored, current}
use stellar_invoice_finance.InvoiceNft.Lifecycle.{set_funded}
use stellar_invoice_finance.InvoiceNft.Effects.{set_funded-eq_ok}
use stellar_invoice_finance.FinancingPool.State as PoolState
use stellar_invoice_finance.FinancingPool.Repayment.{release_funds}
use stellar_invoice_finance.FinancingPool.Released.{new_pool, release_funds-eq_ok}
use stellar_invoice_finance.Marketplace.State.{MarketplaceConfig, World}
use stellar_invoice_finance.Marketplace.Funding
use stellar_invoice_finance.Marketplace.Fees.{stored-listing}
use stellar_invoice_finance.Marketplace.Contribution.{fund_invoice-IsFunding}
use stellar_invoice_finance.Marketplace.Payment.{PoolOpened}

released :
    (env : Env) (ac : AccessControl) (c : MarketplaceConfig) (id : ℕ) (l : Listing)
    (p p' : PoolState.World)
    → PoolOpened env ac c id l p p'
    → leb_ℤ l.asking_price l.funded_amount ≡ true
    → release_funds (enter env c.financing_pool) ac env.self id l.token p ≡ ok (tt, p')
released env ac c id l p p' (inl (b, h)) full = h
released env ac c id l p p' (inr (b, h)) full = absurd (ground (arith, b, full))

-- The invoice before and after a call of `set_funded`.
set_funded-moves :
    (env : Env) (ac : AccessControl) (caller : Address) (id : ℕ) (i : Invoice) (s s' : InvoiceNft)
    → set_funded env ac caller id s ≡ ok (tt, s')
    → s.invoice id ≡ some (current i)
    → (i.status ≡ InvoiceStatus.listed)
      × (s'.invoice id
          ≡ some (current (record i { status = InvoiceStatus.funded; funded_at = some env.now })))
set_funded-moves env ac caller id i s s' h found =
    let (j, e, auth, by, running, status, free, e') = set_funded-eq_ok env ac caller id s s' h in
    let same : j ≡ i = ground (arith, e, found) in
    (
      ap (λ (i : Invoice). i.status) (sym same) ∙ status,
      ap (λ s. s.invoice id) e' ∙ stored j ∙ ap (λ (i : Invoice). moved i) same,
    )
  where
    moved : Invoice → Option Stored
    moved i = some (current (record i { status = InvoiceStatus.funded; funded_at = some env.now }))

    stored : (j : Invoice) → update s.invoice id (moved j) id ≡ moved j
    stored j = ground arith

stored_pool :
    (f : ℕ → Option Pool) (id : ℕ) (p : Pool) → (if id == id then some p else f id) ≡ some p
stored_pool f id p = ground arith

full_funding :
    (l : Listing) (a m n : ℕ)
    → l.funded_amount ≡ pos m
    → l.asking_price ≡ pos a
    → a ≤ m + n
    → leb_ℤ l.asking_price (l.funded_amount +ℤ pos n) ≡ true
full_funding l a m n f g h =
    let p : l.funded_amount +ℤ pos n ≡ pos (m + n) = ap (λ x. x +ℤ pos n) f ∙ +ℤ_pos m n in
    ground (arith, p, g, h)

no_excess :
    (l : Listing) (a m n : ℕ)
    → l.funded_amount ≡ pos m
    → l.asking_price ≡ pos a
    → l.funded_amount +ℤ pos n ≤ℤ l.asking_price
    → m + n ≤ a
no_excess l a m n f g h =
    let p : l.funded_amount +ℤ pos n ≡ pos (m + n) = ap (λ x. x +ℤ pos n) f ∙ +ℤ_pos m n in
    ground (arith, p, g, h)

finished :
    (l : Listing) (a m n : ℕ)
    → l.funded_amount ≡ pos m
    → l.asking_price ≡ pos a
    → m + n ≡ a
    → Funding.funded_listing (l.funded_amount +ℤ pos n) l
      ≡ record l { funded_amount = pos a; is_active = false }
finished l a m n f g h =
    let p : l.funded_amount +ℤ pos n ≡ pos a = ap (λ x. x +ℤ pos n) f ∙ +ℤ_pos m n ∙ ap pos h in
    let q : leb_ℤ l.asking_price (l.funded_amount +ℤ pos n) ≡ true = ground (arith, p, g) in
    ground (arith, p, q)

-- A contribution of `n` that brings a listing funded by `m` to its asking price `a` closes the
-- listing at exactly `a`, opens a pool for the invoice, where there was none, that owes the amount
-- of the invoice and has been repaid nothing, and takes the invoice from listed to funded at this
-- time.
pub fund_invoice_completes :
    (env : Env) (ac : AccessControl) (tokens : Tokens) (investor : Address) (id a m n : ℕ)
    (l : Listing) (w w' : World)
    → Funding.fund_invoice env ac tokens investor id (pos n) w ≡ ok (tt, w')
    → w.market.listing id ≡ some l
    → l.funded_amount ≡ pos m
    → l.asking_price ≡ pos a
    → a ≤ m + n
    → (i : Invoice) × (late : ℕ) × (m + n ≡ a)
      × (w'.market.listing id ≡ some (record l { funded_amount = pos a; is_active = false }))
      × (w.pools.financing.pool id ≡ none)
      × (w'.pools.financing.pool id ≡ some (new_pool id l.token i late))
      × (w.pools.nft.invoice id ≡ some (current i))
      × (i.status ≡ InvoiceStatus.listed)
      × (w'.pools.nft.invoice id
          ≡ some (current (record i { status = InvoiceStatus.funded; funded_at = some env.now })))
fund_invoice_completes env ac tokens investor id a m n l w w' h listed funded_is asking_is full =
    let f = fund_invoice-IsFunding env ac tokens investor id (pos n) w w' h in
    let l_is : f.listing ≡ l = same_listing f.listing (sym f.listed ∙ listed) in
    let full' =
      full_funding f.listing a m n (ap (λ (l : Listing). l.funded_amount) l_is ∙ funded_is)
        (ap (λ (l : Listing). l.asking_price) l_is ∙ asking_is) full in
    let opened =
      released env ac f.config id
        (Funding.funded_listing (f.listing.funded_amount +ℤ pos n) f.listing) w.pools w'.pools
        f.opened full' in
    let (i, late, at, free, found, sized, rate, pool_is, funded) =
      release_funds-eq_ok (enter env f.config.financing_pool) ac env.self id f.listing.token w.pools
        w'.pools opened in
    let (status, after) =
      set_funded-moves (enter (enter env f.config.financing_pool) at) ac f.config.financing_pool id
        i w.pools.nft w'.pools.nft funded found in
    let exact : m + n ≡ a = omega (
      arith,
      full,
      no_excess f.listing a m n (ap (λ (l : Listing). l.funded_amount) l_is ∙ funded_is)
          (ap (λ (l : Listing). l.asking_price) l_is ∙ asking_is) f.room,
    ) in
    (
      i,
      late,
      exact,
      ap (λ s. s.listing id) f.market_is
          ∙ stored-listing (record w.market { config = some f.config }) id
              (Funding.funded_listing (f.listing.funded_amount +ℤ pos n) f.listing)
          ∙ ap (λ (l : Listing). some (Funding.funded_listing (l.funded_amount +ℤ pos n) l)) l_is
          ∙ ap some (finished l a m n funded_is asking_is exact),
      free,
      ap (λ p. p.pool id) pool_is
          ∙ stored_pool w.pools.financing.pool id (new_pool id f.listing.token i late)
          ∙ ap (λ (l : Listing). some (new_pool id l.token i late)) l_is,
      found,
      status,
      after,
    )
  where
    same_listing : (k : Listing) → some k ≡ some l → k ≡ l
    same_listing k e = ground (arith, e)
