-- ===== src/Marketplace/Invariant.antt =====
-- Invariants of the book of contracts/marketplace/src/lib.rs.
use stellar_invoice_finance.Prelude.{
  ℕ, ◌+◌, ◌≤◌, ◌≡◌, refl, arith, true, false, Option, none, some, ℤ, pos, pos_part, ◌+ℤ◌, ◌≤ℤ◌,
  +ℤ_parts, +ℤ_pos, ap, sym, ◌∙◌, update, get_or, List, [], ◌∷◌, Distinct, contains, Bool-cases,
  inl, inr, leb_ℤ, leb_ℤ-below, ◌==◌, ◌⊎◌, if◌then◌else◌,
}
use stellar_invoice_finance.Shared.{Address, Listing}
use stellar_invoice_finance.Marketplace.State.{World}
use stellar_invoice_finance.Marketplace.Funding
use stellar_invoice_finance.Marketplace.Book.{
  Book, Change, IsNew, book, put_listing, add_funding, closed,
}
use stellar_invoice_finance.Marketplace.Steps.{Reach}
use stellar_invoice_finance.Marketplace.Refinement.{Step-Change}

-- A listing asks for a positive amount below the face value, is funded up to that amount at most,
-- and is closed when it has all of it.
pub record IsListing (id : ℕ) (l : Listing) : Type 0 where
  pub id_is : l.invoice_id ≡ id
  pub asks : pos 1 ≤ℤ l.asking_price
  pub discounted : l.asking_price +ℤ pos 1 ≤ℤ l.face_value
  pub from_zero : pos 0 ≤ℤ l.funded_amount
  pub bounded : l.funded_amount ≤ℤ l.asking_price
  pub open_until_full : l.is_active ≡ true → l.funded_amount +ℤ pos 1 ≤ℤ l.asking_price

-- What the listed investors could be refunded.
abbrev pub total_contributed : (Address → Option ℤ) → List Address → ℕ
total_contributed c [] = 0
total_contributed c (a ∷ ys) = pos_part (get_or (c a) (pos 0)) + total_contributed c ys

abbrev pub funded_of : Option Listing → ℕ
funded_of none = 0
funded_of (some l) = pos_part l.funded_amount

pub record IsBook (b : Book) : Type 0 where
  pub listings : (id : ℕ) (l : Listing) → b.listing id ≡ some l → IsListing id l
  pub backed :
      (id : ℕ) (ys : List Address)
      → Distinct ys
      → total_contributed (b.contribution id) ys ≤ funded_of (b.listing id)

total-elsewhere :
    (c : Address → Option ℤ) (a : Address) (v : ℤ) (ys : List Address)
    → contains a ys ≡ false
    → total_contributed (update c a (some v)) ys ≡ total_contributed c ys
total-elsewhere c a v [] h = refl
total-elsewhere c a v (x ∷ xs) h = ground (arith, h, total-elsewhere c a v xs)

total-add :
    (c : Address → Option ℤ) (a : Address) (v : ℤ) (n : ℕ) (ys : List Address)
    → pos_part v ≤ pos_part (get_or (c a) (pos 0)) + n
    → Distinct ys
    → total_contributed (update c a (some v)) ys ≤ total_contributed c ys + n
total-add c a v n [] h d = omega arith
total-add c a v n (x ∷ xs) h (d, ds) = elim (Bool-cases (x == a)) [
  | inl e ↦
      let x_is : x ≡ a = ground (arith, e) in
      let rest = total-elsewhere c a v xs (ap (λ x. contains x xs) (sym x_is) ∙ d) in
      let here : get_or (c x) (pos 0) ≡ get_or (c a) (pos 0) =
        ap (λ x. get_or (c x) (pos 0)) x_is in
      ground (arith, e, rest, h, here)
  | inr e ↦ let rest = total-add c a v n xs h ds in ground (arith, e, rest)
]

put_listing-IsBook :
    (id : ℕ) (l : Listing) (b : Book)
    → IsBook b
    → IsListing id l
    → funded_of (some l) ≡ funded_of (b.listing id)
    → IsBook (put_listing id l b)
put_listing-IsBook id l b v i e = record {
  listings = λ j k h. at j k h (Bool-cases (j == id));
  backed = λ j ys d. under j ys d (Bool-cases (j == id));
}
  where
    at :
        (j : ℕ) (k : Listing)
        → update b.listing id (some l) j ≡ some k
        → ((j == id) ≡ true) ⊎ ((j == id) ≡ false)
        → IsListing j k
    at j k h (inl f) =
        let j_is : id ≡ j = ground (arith, f) in
        let k_is : l ≡ k = ground (arith, h, f) in rw (← j_is, ← k_is) i
    at j k h (inr f) = v.listings j k (ground (arith, h, f))

    under :
        (j : ℕ) (ys : List Address)
        → Distinct ys
        → ((j == id) ≡ true) ⊎ ((j == id) ≡ false)
        → total_contributed (b.contribution j) ys ≤ funded_of (update b.listing id (some l) j)
    under j ys d (inl f) =
        let j_is : j ≡ id = ground (arith, f) in
        let old = v.backed j ys d in
        let same = ap (λ j. funded_of (b.listing j)) j_is in ground (arith, f, old, same, e)
    under j ys d (inr f) = let old = v.backed j ys d in ground (arith, f, old)

funded-IsListing :
    (id : ℕ) (l : Listing) (amount : ℤ)
    → IsListing id l
    → pos 1 ≤ℤ amount
    → l.funded_amount +ℤ amount ≤ℤ l.asking_price
    → IsListing id (Funding.funded_listing (l.funded_amount +ℤ amount) l)
funded-IsListing id l amount i h k = record {
  id_is = i.id_is;
  asks = i.asks;
  discounted = i.discounted;
  from_zero = let p = +ℤ_parts l.funded_amount amount in omega (arith, p, i.from_zero, h);
  bounded = k;
  open_until_full = λ e. leb_ℤ-below l.asking_price (l.funded_amount +ℤ amount) (still_open e);
}
  where
    still_open :
        (if leb_ℤ l.asking_price (l.funded_amount +ℤ amount) then false else l.is_active) ≡ true
        → leb_ℤ l.asking_price (l.funded_amount +ℤ amount) ≡ false
    still_open e = elim (Bool-cases (leb_ℤ l.asking_price (l.funded_amount +ℤ amount))) [
      | inl f ↦ absurd (ground (arith, e, f))
      | inr f ↦ f
    ]

more-contributed :
    (c net amount : ℤ)
    → net ≤ℤ amount
    → pos 0 ≤ℤ amount
    → pos_part (c +ℤ net) ≤ pos_part c + pos_part amount
unfolding ◌+ℤ◌
more-contributed c net amount h k = ground (arith, h, k)

more-funded : (a b : ℤ) → pos 0 ≤ℤ a → pos 0 ≤ℤ b → pos_part (a +ℤ b) ≡ pos_part a + pos_part b
unfolding ◌+ℤ◌
more-funded a b h k = ground (arith, h, k)

add_funding-IsBook :
    (id : ℕ) (investor : Address) (amount net : ℤ) (l : Listing) (b : Book)
    → IsBook b
    → b.listing id ≡ some l
    → pos 1 ≤ℤ amount
    → net ≤ℤ amount
    → l.funded_amount +ℤ amount ≤ℤ l.asking_price
    → IsBook (add_funding id investor amount net l b)
add_funding-IsBook id investor amount net l b v e h k room = record {
  listings = λ j m g. at j m g (Bool-cases (j == id));
  backed = λ j ys d. under j ys d (Bool-cases (j == id));
}
  where
    l' : Listing
    l' = Funding.funded_listing (l.funded_amount +ℤ amount) l

    at :
        (j : ℕ) (m : Listing)
        → update b.listing id (some l') j ≡ some m
        → ((j == id) ≡ true) ⊎ ((j == id) ≡ false)
        → IsListing j m
    at j m g (inl f) =
        let j_is : id ≡ j = ground (arith, f) in
        let m_is : l' ≡ m = ground (arith, g, f) in
        rw (← j_is, ← m_is) (funded-IsListing id l amount (v.listings id l e) h room)
    at j m g (inr f) = v.listings j m (ground (arith, g, f))

    c : Address → Option ℤ
    c = b.contribution id

    grown :
        (ys : List Address)
        → Distinct ys
        → total_contributed (update c investor (some (get_or (c investor) (pos 0) +ℤ net))) ys
          ≤ pos_part (l.funded_amount +ℤ amount)
    grown ys d =
        let more = more-contributed (get_or (c investor) (pos 0)) net amount k (omega (arith, h)) in
        let added =
          total-add c investor (get_or (c investor) (pos 0) +ℤ net) (pos_part amount) ys more d in
        let old = v.backed id ys d in
        let funded_is : funded_of (b.listing id) ≡ pos_part l.funded_amount = ap funded_of e in
        let sum =
          more-funded l.funded_amount amount (v.listings id l e).from_zero (omega (arith, h)) in
        omega (arith, added, old, funded_is, sum)

    under :
        (j : ℕ) (ys : List Address)
        → Distinct ys
        → ((j == id) ≡ true) ⊎ ((j == id) ≡ false)
        → total_contributed
            (update b.contribution id
              (update c investor (some (get_or (c investor) (pos 0) +ℤ net)))
              j)
            ys
          ≤ funded_of (update b.listing id (some l') j)
    under j ys d (inl f) = rw f (grown ys d)
    under j ys d (inr f) = rw f (v.backed j ys d)

closed-IsListing : (id : ℕ) (l : Listing) → IsListing id l → IsListing id (closed l)
closed-IsListing id l i = record {
  id_is = i.id_is;
  asks = i.asks;
  discounted = i.discounted;
  from_zero = i.from_zero;
  bounded = i.bounded;
  open_until_full = λ e. absurd (ground (arith, e));
}

new-IsListing : (id : ℕ) (l : Listing) → IsNew id l → IsListing id l
new-IsListing id l i = record {
  id_is = i.id_is;
  asks = i.asks;
  discounted = i.discounted;
  from_zero = rw i.unfunded (omega arith);
  bounded = rw i.unfunded (omega (arith, i.asks));
  open_until_full = λ e. rw (i.unfunded, +ℤ_pos 0 1) i.asks;
}

Change-IsBook : {now : ℕ} (b b' : Book) → IsBook b → Change now b b' → IsBook b'
Change-IsBook b b' v (Change.idles e) = rw e v
Change-IsBook b b' v (Change.lists id l free new e) = rw e (
    put_listing-IsBook id l b v (new-IsListing id l new)
      (ap pos_part new.unfunded ∙ ap funded_of (sym free)))
Change-IsBook b b' v (Change.funds id l investor amount net listed active in_time h k room e) =
    rw e (add_funding-IsBook id investor amount net l b v listed h k room)
Change-IsBook b b' v (Change.closes id l listed active e) = rw e (
    put_listing-IsBook id (closed l) b v (closed-IsListing id l (v.listings id l listed))
      (ap funded_of (sym listed)))
Change-IsBook b b' v (Change.confirms id l listed active e) =
    let v' =
      put_listing-IsBook id (closed l) b v (closed-IsListing id l (v.listings id l listed))
        (ap funded_of (sym listed)) in
    rw e (record { listings = v'.listings; backed = v'.backed })
Change-IsBook b b' v (Change.refunds id l investor listed short due unclaimed some_net e) =
    rw e (record { listings = v.listings; backed = v.backed })

nothing_contributed : (ys : List Address) → total_contributed (λ a. none) ys ≤ 0
nothing_contributed [] = omega arith
nothing_contributed (y ∷ ys) = let rest = nothing_contributed ys in omega (arith, rest)

-- In every state that the calls of the marketplace lead to from an empty storage, a listing is
-- stored under its own id, asks for a positive amount below its face value, has been funded by at
-- least 0 and at most what it asks for, and is active only while it lacks some of it; and what any
-- list of different investors could be refunded on an invoice comes to at most what its listing
-- was funded by.
pub Reach-IsBook : (w : World) → Reach w → IsBook (book w.market)
Reach-IsBook u (Reach.deployed w e) = rw e (record {
  listings = λ id l h. absurd (ground (arith, h));
  backed = λ id ys d. nothing_contributed ys;
})
Reach-IsBook u (Reach.next w w' r st) =
    Change-IsBook (book w.market) (book w'.market) (Reach-IsBook w r) (Step-Change w w' st)
