-- ===== src/Marketplace/Enlisted.antt =====
-- `list_invoice` of contracts/marketplace/src/lib.rs as a whole: the book, and the invoice.
use stellar_invoice_finance.Prelude.{
  false, ℕ, ◌≡◌, refl, arith, true, Option, none, some, ℤ, ap, sym, ◌∙◌, leb_ℤ, leb_ℤ-below,
  is_some, update,
}
use stellar_invoice_finance.Shared.{
  Env, Address, Listing, Invoice, InvoiceStatus, ok, bind-eq_ok, reject_if-eq_ok,
  require_auth-eq_ok, lift-eq_ok, enter, invalid_amount, invoice_already_exists,
}
use stellar_invoice_finance.Shared.Reentrancy
use stellar_invoice_finance.AccessControl.State.{AccessControl}
use stellar_invoice_finance.RiskRegistry.State.{is_compliance_attested}
use stellar_invoice_finance.Shared.Validation.{
  require_non_zero_amount, require_within_max_amount, require_future_timestamp,
}
use stellar_invoice_finance.InvoiceNft.State.{InvoiceNft, Stored, current}
use stellar_invoice_finance.InvoiceNft.Lifecycle.{set_listed}
use stellar_invoice_finance.Marketplace.State.{
  Marketplace, World, in_market, with_guard, require_not_paused, require_compliance_attested,
  require_whitelisted_token,
}
use stellar_invoice_finance.Marketplace.Listings
use stellar_invoice_finance.Marketplace.Rates.{HasFees}
use stellar_invoice_finance.Marketplace.Book.{Change, IsNew, book, put_listing}
use stellar_invoice_finance.InvoiceNft.Effects.{set_listed-eq_ok}
use stellar_invoice_finance.Marketplace.Listed.{
  in_market-eq_ok, enlist-eq_ok, require_not_paused-eq_ok, require_whitelisted-eq_ok,
  require_compliance-book, require_compliance-HasFees, free_slot, positive,
}

-- The part under the reentrancy guard: the book, and the call of the NFT contract.
guarded-eq_ok :
    (env : Env) (ac : AccessControl) (r : Option Address) (l : Listing) (w w' : World)
    → with_guard (Listings.enlist env ac r l) w ≡ ok (tt, w')
    → (a : Address) × (i : Invoice) × (w.pools.nft.invoice l.invoice_id ≡ some (current i))
      × (i.amount ≡ l.face_value)
      × (set_listed (enter env a) ac env.self l.invoice_id w.pools.nft ≡ ok (tt, w'.pools.nft))
      × (book w'.market ≡ put_listing l.invoice_id l (book w.market))
      × (HasFees w.market → HasFees w'.market)
guarded-eq_ok env ac r l w w' h =
    let (u, free, e, left) =
      Reentrancy.with_guard-eq_ok (λ (w : World). w.market.lock)
        (λ b w. record w { market = record w.market { lock = b } }) (Listings.enlist env ac r l) tt
        w w' h in
    let (a, i, found, amount, called, stored, fees) = enlist-eq_ok env ac r l _ u e in
    (
      a,
      i,
      found,
      amount,
      called ∙ ap (λ w. ok (tt, w.pools.nft)) (sym left),
      ap (λ w. book w.market) left ∙ stored,
      λ v. rw left (unlocked u.market (fees (locked w.market v))),
    )
  where
    locked : (s : Marketplace) → HasFees s → HasFees (record s { lock = true })
    locked s v = record { flat = v.flat; legacy = v.legacy; tiers = v.tiers }

    unlocked : (s : Marketplace) → HasFees s → HasFees (record s { lock = false })
    unlocked s v = record { flat = v.flat; legacy = v.legacy; tiers = v.tiers }

-- The guards of a listing that succeeds, up to the reentrancy guard.
list_invoice-eq_ok :
    (env : Env) (ac : AccessControl) (seller : Address) (id : ℕ) (asking face : ℤ) (token : Address)
    (deadline : ℕ) (r : Option Address) (w w' : World)
    → Listings.list_invoice env ac seller id asking face token deadline r w ≡ ok (tt, w')
    → (v : World) × (v.pools ≡ w.pools)
      × (book v.market ≡ book w.market)
      × (HasFees w.market → HasFees v.market)
      × (w.market.listing id ≡ none)
      × (env.auth seller ≡ true)
      × (is_compliance_attested w.pools.risk seller ≡ true)
      × IsNew id (Listings.new_listing seller id asking face token deadline)
      × (with_guard
            (Listings.enlist env ac r (Listings.new_listing seller id asking face token deadline))
            v
          ≡ ok (tt, w'))
unfolding Listings.list_invoice
list_invoice-eq_ok env ac seller id asking face token deadline r w w' h =
    let (auth, h1) = require_auth-eq_ok env seller _ w (tt, w') h in
    let (x1, w1, e1, h2) = bind-eq_ok (in_market (require_not_paused ac)) _ w (tt, w') h1 in
    let (x2, asks, h3) = lift-eq_ok (require_non_zero_amount asking) _ w1 (tt, w') h2 in
    let (x3, faced, h4) = lift-eq_ok (require_non_zero_amount face) _ w1 (tt, w') h3 in
    let (x4, small, h5) = lift-eq_ok (require_within_max_amount asking) _ w1 (tt, w') h4 in
    let (x5, small', h6) = lift-eq_ok (require_within_max_amount face) _ w1 (tt, w') h5 in
    let (x6, future, h7) = lift-eq_ok (require_future_timestamp env deadline) _ w1 (tt, w') h6 in
    let (discount, h8) = reject_if-eq_ok (leb_ℤ face asking) invalid_amount _ w1 (tt, w') h7 in
    let (x9, w2, e2, h9) =
      bind-eq_ok (in_market (require_whitelisted_token token)) _ w1 (tt, w') h8 in
    let (x10, w3, e3, h10) =
      bind-eq_ok (in_market (require_compliance_attested w2.pools.risk seller)) _ w2 (tt, w') h9 in
    let (free, h11) =
      reject_if-eq_ok (is_some (w3.market.listing id)) invoice_already_exists _ w3 (tt, w') h10 in
    let (paused, w1') = in_market-eq_ok (require_not_paused ac) tt w w1 e1 in
    let (listed, w2') = in_market-eq_ok (require_whitelisted_token token) tt w1 w2 e2 in
    let (attested, w3') =
      in_market-eq_ok (require_compliance_attested w2.pools.risk seller) tt w2 w3 e3 in
    let same : book w3.market ≡ book w.market =
      (require_compliance-book w2.pools.risk seller w2.market w3.market attested).1
      ∙ ap book (require_whitelisted-eq_ok token w1.market w2.market listed)
      ∙ ap book (require_not_paused-eq_ok ac w.market w1.market paused) in
    let paused_is = require_not_paused-eq_ok ac w.market w1.market paused in
    let listed_is = require_whitelisted-eq_ok token w1.market w2.market listed in
    let fees = λ (v : HasFees w.market).
      require_compliance-HasFees w2.pools.risk seller w2.market w3.market attested
        (kept w.market w2.market (listed_is ∙ paused_is) v) in
    let pools2 : w2.pools ≡ w.pools = ap (λ w. w.pools) w2' ∙ ap (λ w. w.pools) w1' in
    (
      w3,
      ap (λ w. w.pools) w3' ∙ pools2,
      same,
      fees,
      ap (λ b. b.listing id) (sym same) ∙ free_slot (w3.market.listing id) free,
      auth,
      ap (λ p. is_compliance_attested p.risk seller) (sym pools2)
          ∙ (require_compliance-book w2.pools.risk seller w2.market w3.market attested).0,
      record {
        id_is = refl;
        asks = positive asking asks;
        discounted = leb_ℤ-below face asking discount;
        unfunded = refl;
        active = refl;
      },
      h11,
    )
  where
    kept : (s t : Marketplace) → t ≡ s → HasFees s → HasFees t
    kept s t e v = rw e v

pub list_invoice-Change :
    (env : Env) (ac : AccessControl) (seller : Address) (id : ℕ) (asking face : ℤ) (token : Address)
    (deadline : ℕ) (r : Option Address) (w w' : World)
    → Listings.list_invoice env ac seller id asking face token deadline r w ≡ ok (tt, w')
    → Change env.now (book w.market) (book w'.market)
list_invoice-Change env ac seller id asking face token deadline r w w' h =
    let (v, pools, same, rates, free, auth, attested, new, guarded) =
      list_invoice-eq_ok env ac seller id asking face token deadline r w w' h in
    let l = Listings.new_listing seller id asking face token deadline in
    let (a, i, found, amount, called, stored, fees) = guarded-eq_ok env ac r l v w' guarded in
    Change.lists id l free new (stored ∙ ap (put_listing id l) same)

stored_listing : (f : ℕ → Option Listing) (id : ℕ) (l : Listing) → update f id (some l) id ≡ some l
stored_listing f id l = ground arith

-- The invoice before and after a call of `set_listed`.
set_listed-moves :
    (env : Env) (ac : AccessControl) (caller : Address) (id : ℕ) (i : Invoice) (s s' : InvoiceNft)
    → set_listed env ac caller id s ≡ ok (tt, s')
    → s.invoice id ≡ some (current i)
    → (i.status ≡ InvoiceStatus.created)
      × (s'.invoice id ≡ some (current (record i { status = InvoiceStatus.listed })))
set_listed-moves env ac caller id i s s' h found =
    let (j, e, auth, by, running, status, free, e') = set_listed-eq_ok env ac caller id s s' h in
    let same : j ≡ i = ground (arith, e, found) in
    (
      ap (λ (i : Invoice). i.status) (sym same) ∙ status,
      ap (λ s. s.invoice id) e' ∙ stored j ∙ ap (λ (i : Invoice). moved i) same,
    )
  where
    moved : Invoice → Option Stored
    moved i = some (current (record i { status = InvoiceStatus.listed }))

    stored : (j : Invoice) → update s.invoice id (moved j) id ≡ moved j
    stored j = ground arith

-- An invoice is listed by a seller who authorised the call and has the compliance attestation, when
-- it has no listing yet and is `Created` with an amount equal to the face value given; the listing
-- is stored as given, active and without funding, and the invoice becomes `Listed` in the NFT
-- contract.
pub list_invoice_lists :
    (env : Env) (ac : AccessControl) (seller : Address) (id : ℕ) (asking face : ℤ) (token : Address)
    (deadline : ℕ) (r : Option Address) (w w' : World)
    → Listings.list_invoice env ac seller id asking face token deadline r w ≡ ok (tt, w')
    → (i : Invoice) × (env.auth seller ≡ true)
      × (is_compliance_attested w.pools.risk seller ≡ true)
      × (w.market.listing id ≡ none)
      × (w.pools.nft.invoice id ≡ some (current i))
      × (i.amount ≡ face)
      × (i.status ≡ InvoiceStatus.created)
      × (w'.market.listing id ≡ some (Listings.new_listing seller id asking face token deadline))
      × (w'.pools.nft.invoice id ≡ some (current (record i { status = InvoiceStatus.listed })))
list_invoice_lists env ac seller id asking face token deadline r w w' h =
    let (v, pools, same, rates, free, auth, attested, new, guarded) =
      list_invoice-eq_ok env ac seller id asking face token deadline r w w' h in
    let l = Listings.new_listing seller id asking face token deadline in
    let (a, i, found, amount, called, stored, fees) = guarded-eq_ok env ac r l v w' guarded in
    let (created, moved) =
      set_listed-moves (enter env a) ac env.self id i v.pools.nft w'.pools.nft called found in
    (
      i,
      auth,
      attested,
      free,
      ap (λ p. p.nft.invoice id) (sym pools) ∙ found,
      amount,
      created,
      ap (λ b. b.listing id) stored ∙ stored_listing v.market.listing id l,
      moved,
    )

pub list_invoice-HasFees :
    (env : Env) (ac : AccessControl) (seller : Address) (id : ℕ) (asking face : ℤ) (token : Address)
    (deadline : ℕ) (r : Option Address) (w w' : World)
    → Listings.list_invoice env ac seller id asking face token deadline r w ≡ ok (tt, w')
    → HasFees w.market
    → HasFees w'.market
list_invoice-HasFees env ac seller id asking face token deadline r w w' h x =
    let (v, pools, same, rates, free, auth, attested, new, guarded) =
      list_invoice-eq_ok env ac seller id asking face token deadline r w w' h in
    let l = Listings.new_listing seller id asking face token deadline in
    let (a, i, found, amount, called, stored, fees) = guarded-eq_ok env ac r l v w' guarded in
    fees (rates x)
