-- ===== src/Marketplace/Book.antt =====
-- What contracts/marketplace/src/lib.rs promises of its listings and refunds: the records that
-- count, and the ways in which they may change.
use stellar_invoice_finance.Prelude.{
  ℕ, ◌≤◌, ◌<◌, ◌≡◌, Bool, true, false, Option, none, some, ℤ, pos, ◌+ℤ◌, ◌≤ℤ◌, update, get_or,
  leb_ℤ, ◌⊎◌, if◌then◌else◌,
}
use stellar_invoice_finance.Shared.{Address, Listing}
use stellar_invoice_finance.Marketplace.State.{Marketplace}

pub record Book : Type 0 where
  pub listing : ℕ → Option Listing
  pub contribution : ℕ → Address → Option ℤ
  pub claimed : ℕ → Address → Option Bool
  pub confirmed : ℕ → Option Bool

abbrev pub book : Marketplace → Book
book s = record {
  listing = s.listing;
  contribution = s.contribution;
  claimed = s.refund_claimed;
  confirmed = s.cancellation_confirmed;
}

-- A listing asks for less than the face value, and has no funding yet.
pub record IsNew (id : ℕ) (l : Listing) : Type 0 where
  pub id_is : l.invoice_id ≡ id
  pub asks : pos 1 ≤ℤ l.asking_price
  pub discounted : l.asking_price +ℤ pos 1 ≤ℤ l.face_value
  pub unfunded : l.funded_amount ≡ pos 0
  pub active : l.is_active ≡ true

abbrev pub put_listing : ℕ → Listing → Book → Book
put_listing id l b = record b { listing = update b.listing id (some l) }

abbrev pub contribution_of : Book → ℕ → Address → ℤ
contribution_of b id a = get_or (b.contribution id a) (pos 0)

-- The listing and its funding by one contribution, with the fee taken off.
abbrev pub add_funding : ℕ → Address → ℤ → ℤ → Listing → Book → Book
add_funding id investor amount net l b = record b {
  listing = update b.listing id (
      some (record l {
        funded_amount = l.funded_amount +ℤ amount;
        is_active = if leb_ℤ l.asking_price (l.funded_amount +ℤ amount) then false else l.is_active;
      }));
  contribution =
      update b.contribution id
        (update (b.contribution id) investor (some (contribution_of b id investor +ℤ net)));
}

abbrev pub add_claim : ℕ → Address → Book → Book
add_claim id investor b = record b {
  claimed = update b.claimed id (update (b.claimed id) investor (some true));
}

abbrev pub confirm : ℕ → Book → Book
confirm id b = record b { confirmed = update b.confirmed id (some true) }

abbrev pub closed : Listing → Listing
closed l = record l { is_active = false }

-- At the time `now`.
pub data Change (now : ℕ) (b b' : Book) : Type 0 where
  idles : b' ≡ b → Change now b b'
  lists :
      (id : ℕ) (l : Listing)
      → b.listing id ≡ none
      → IsNew id l
      → b' ≡ put_listing id l b
      → Change now b b'
  funds :
      (id : ℕ) (l : Listing) (investor : Address) (amount net : ℤ)
      → b.listing id ≡ some l
      → l.is_active ≡ true
      → now ≤ l.funding_deadline
      → pos 1 ≤ℤ amount
      → net ≤ℤ amount
      → l.funded_amount +ℤ amount ≤ℤ l.asking_price
      → b' ≡ add_funding id investor amount net l b
      → Change now b b'
  closes :
      (id : ℕ) (l : Listing)
      → b.listing id ≡ some l
      → l.is_active ≡ true
      → b' ≡ put_listing id (closed l) b
      → Change now b b'
  confirms :
      (id : ℕ) (l : Listing)
      → b.listing id ≡ some l
      → l.is_active ≡ true
      → b' ≡ confirm id (put_listing id (closed l) b)
      → Change now b b'
  refunds :
      (id : ℕ) (l : Listing) (investor : Address)
      → b.listing id ≡ some l
      → l.funded_amount +ℤ pos 1 ≤ℤ l.asking_price
      → (b.confirmed id ≡ some true) ⊎ (l.funding_deadline < now)
      → get_or (b.claimed id investor) false ≡ false
      → pos 1 ≤ℤ contribution_of b id investor
      → b' ≡ add_claim id investor b
      → Change now b b'
