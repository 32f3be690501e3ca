-- ===== src/Marketplace/Final.antt =====
-- What stays for good in contracts/marketplace/src/lib.rs: closed listings and claimed refunds.
use stellar_invoice_finance.Prelude.{
  ℕ, ◌≡◌, arith, true, false, Option, some, ℤ, pos, ◌+ℤ◌, ◌≤ℤ◌, ap, ◌∙◌, update, get_or, ◌==◌,
  Bool-cases, inl, inr, ◌⊎◌,
}
use stellar_invoice_finance.Shared.{Env, Address, Listing, ok, err, listing_already_cancelled}
use stellar_invoice_finance.Shared.Token.{Tokens}
use stellar_invoice_finance.Shared.Validation.{max_amount}
use stellar_invoice_finance.AccessControl.State.{AccessControl, is_paused}
use stellar_invoice_finance.Marketplace.State.{Marketplace, World}
use stellar_invoice_finance.Marketplace.Funding
use stellar_invoice_finance.Marketplace.Cancellation
use stellar_invoice_finance.Marketplace.Book.{Book, Change, book, closed}
use stellar_invoice_finance.Marketplace.Steps.{Steps}
use stellar_invoice_finance.Marketplace.Refinement.{Step-Change}
use stellar_invoice_finance.Marketplace.Ended.{claim_refund-eq_ok}

elsewhere :
    (f : ℕ → Option Listing) (id j : ℕ) (k l m : Listing)
    → f id ≡ some k
    → k.is_active ≡ false
    → f j ≡ some l
    → l.is_active ≡ true
    → update f j (some m) id ≡ some k
elsewhere f id j k l m e h g a = elim (Bool-cases (id == j)) [
  | inl b ↦
      let id_is : id ≡ j = ground (arith, b) in
      let same : f id ≡ f j = ap f id_is in absurd (ground (arith, e, h, g, a, same))
  | inr b ↦ ground (arith, b, e)
]

Change-closed :
    {now : ℕ} (b b' : Book) (id : ℕ) (k : Listing)
    → Change now b b'
    → b.listing id ≡ some k
    → k.is_active ≡ false
    → b'.listing id ≡ some k
Change-closed b b' id k (Change.idles e) h c = ap (λ b. b.listing id) e ∙ h
Change-closed b b' id k (Change.lists j l free new e) h c =
    ap (λ b. b.listing id) e ∙ untaken (Bool-cases (id == j))
  where
    untaken : ((id == j) ≡ true) ⊎ ((id == j) ≡ false) → update b.listing j (some l) id ≡ some k
    untaken (inl f) =
        let id_is : id ≡ j = ground (arith, f) in
        let same : b.listing id ≡ b.listing j = ap b.listing id_is in
        absurd (ground (arith, h, free, same))
    untaken (inr f) = ground (arith, f, h)
Change-closed b b' id k (Change.funds j l investor amount net g a t p n r e) h c =
    ap (λ b. b.listing id) e
    ∙ elsewhere b.listing id j k l (Funding.funded_listing (l.funded_amount +ℤ amount) l) h c g a
Change-closed b b' id k (Change.closes j l g a e) h c =
    ap (λ b. b.listing id) e ∙ elsewhere b.listing id j k l (closed l) h c g a
Change-closed b b' id k (Change.confirms j l g a e) h c =
    ap (λ b. b.listing id) e ∙ elsewhere b.listing id j k l (closed l) h c g a
Change-closed b b' id k (Change.refunds j l investor g s d u n e) h c = ap (λ b. b.listing id) e ∙ h

Steps-closed :
    (w w' : World) (id : ℕ) (k : Listing)
    → Steps w w'
    → w.market.listing id ≡ some k
    → k.is_active ≡ false
    → w'.market.listing id ≡ some k
Steps-closed w w' id k Steps.here h c = h
Steps-closed w w' id k (Steps.next t u r st) h c =
    Change-closed (book t.market) (book u.market) id k (Step-Change t u st)
      (Steps-closed w t id k r h c) c

-- A listing that was closed, by full funding or by a cancellation, is not changed by any later
-- calls, and refuses every contribution with `ListingAlreadyCancelled`, where the investor
-- authorised it, the protocol is not paused, and the amount is positive and not above the maximum.
pub closed_listing_is_final :
    (w w' : World) (id : ℕ) (k : Listing)
    → Steps w w'
    → w.market.listing id ≡ some k
    → k.is_active ≡ false
    → (env : Env) (ac : AccessControl) (tokens : Tokens) (investor : Address) (amount : ℤ)
    → env.auth investor ≡ true
    → is_paused ac ≡ false
    → pos 1 ≤ℤ amount
    → amount ≤ℤ max_amount
    → (w'.market.listing id ≡ some k)
      × (Funding.fund_invoice env ac tokens investor id amount w' ≡ err listing_already_cancelled)
unfolding Funding.fund_invoice Funding.load_open_listing
closed_listing_is_final w w' id k r h c env ac tokens investor amount auth running least most =
    let h' = Steps-closed w w' id k r h c in (h', ground (arith, h', c, auth, running, least, most))

Change-claimed :
    {now : ℕ} (b b' : Book) (id : ℕ) (a : Address)
    → Change now b b'
    → get_or (b.claimed id a) false ≡ true
    → get_or (b'.claimed id a) false ≡ true
Change-claimed b b' id a (Change.idles e) h = ap (λ b. get_or (b.claimed id a) false) e ∙ h
Change-claimed b b' id a (Change.lists j l free new e) h =
    ap (λ b. get_or (b.claimed id a) false) e ∙ h
Change-claimed b b' id a (Change.funds j l investor amount net g c t p n r e) h =
    ap (λ b. get_or (b.claimed id a) false) e ∙ h
Change-claimed b b' id a (Change.closes j l g c e) h = ap (λ b. get_or (b.claimed id a) false) e ∙ h
Change-claimed b b' id a (Change.confirms j l g c e) h =
    ap (λ b. get_or (b.claimed id a) false) e ∙ h
Change-claimed b b' id a (Change.refunds j l investor g s d u n e) h =
    ap (λ b. get_or (b.claimed id a) false) e ∙ still
  where
    still :
        get_or (update b.claimed j (update (b.claimed j) investor (some true)) id a) false ≡ true
    still = elim (Bool-cases (id == j)) [
      | inl f ↦
          let id_is : id ≡ j = ground (arith, f) in
          let same = ap (λ j. get_or (b.claimed j a) false) id_is in ground (arith, f, h, same)
      | inr f ↦ ground (arith, f, h)
    ]

Steps-claimed :
    (w w' : World) (id : ℕ) (a : Address)
    → Steps w w'
    → Cancellation.has_claimed w.market id a ≡ true
    → Cancellation.has_claimed w'.market id a ≡ true
Steps-claimed w w' id a Steps.here h = h
Steps-claimed w w' id a (Steps.next t u r st) h =
    Change-claimed (book t.market) (book u.market) id a (Step-Change t u st)
      (Steps-claimed w t id a r h)

-- An investor who has been refunded on an invoice is not refunded on it again, whatever calls come
-- in between.
pub refund_is_once :
    (env : Env) (tokens : Tokens) (investor : Address) (id : ℕ) (w w' w'' : World)
    → Cancellation.claim_refund env tokens investor id w.market ≡ ok (tt, w'.market)
    → Steps w' w''
    → (env' : Env) (tokens' : Tokens) (s : Marketplace)
    → ¬ (Cancellation.claim_refund env' tokens' investor id w''.market ≡ ok (tt, s))
refund_is_once env tokens investor id w w' w'' h r env' tokens' s k =
    let (l, c, e, auth, short, due, unclaimed, some_net, s1) =
      claim_refund-eq_ok env tokens investor id w.market w'.market h in
    let (l', c', e', auth', short', due', unclaimed', some_net', s2) =
      claim_refund-eq_ok env' tokens' investor id w''.market s k in
    let marked : Cancellation.has_claimed w'.market id investor ≡ true =
      ap (λ s. Cancellation.has_claimed s id investor) s1 ∙ ground arith in
    let kept = Steps-claimed w' w'' id investor r marked in ground (arith, kept, unclaimed')
