-- ===== src/FinancingPool/Pages.antt =====
-- The pages of positions of contracts/financing_pool/src/lib.rs are slices of all positions.
use stellar_invoice_finance.Prelude.{
  ℕ, zero, suc, ◌+◌, ◌-◌, ◌≤◌, ◌<◌, ◌≡◌, refl, arith, some, List, [], ◌∷◌, take, drop, length,
  get_elem?, ap, sym, ◌∙◌, if◌then◌else◌, leb, Bool-cases, inl, inr,
}
use stellar_invoice_finance.Shared.{ok}
use stellar_invoice_finance.FinancingPool.State.{FinancingPool, get_positions}
use stellar_invoice_finance.FinancingPool.Positions.{min, page_from, get_positions_page}

module _ {A : Type 0} where
  drop-next :
      (xs : List A) (i : ℕ)
      → i < length xs
      → (x : A) × (get_elem? xs i ≡ some x) × (drop i xs ≡ x ∷ drop (suc i) xs)
  drop-next [] i h = ground arith
  drop-next (x ∷ xs) zero h = (x, refl, refl)
  drop-next (x ∷ xs) (suc i) h = drop-next xs i (omega arith)

  page_from-eq :
      (xs : List A) (i k : ℕ) → i + k ≤ length xs → page_from xs i k ≡ ok (take k (drop i xs))
  unfolding page_from
  page_from-eq xs i zero h = refl
  page_from-eq xs i (suc k) h =
      let (x, e, d) = drop-next xs i (omega arith) in
      let rest = page_from-eq xs (suc i) k (omega arith) in ground (arith, e, d, rest)

  take-all : (k : ℕ) (xs : List A) → length xs ≤ k → take k xs ≡ xs
  take-all zero [] h = refl
  take-all zero (x ∷ xs) h = ground arith
  take-all (suc k) [] h = refl
  take-all (suc k) (x ∷ xs) h = ap (λ ys. x ∷ ys) (take-all k xs (omega arith))

  drop-all : (k : ℕ) (xs : List A) → length xs ≤ k → drop k xs ≡ []
  drop-all zero [] h = refl
  drop-all zero (x ∷ xs) h = ground arith
  drop-all (suc k) [] h = refl
  drop-all (suc k) (x ∷ xs) h = drop-all k xs (omega arith)

  length-drop : (k : ℕ) (xs : List A) → length (drop k xs) ≡ length xs - k
  length-drop zero xs = ground arith
  length-drop (suc k) [] = ground arith
  length-drop (suc k) (x ∷ xs) = ground (arith, length-drop k xs)

  drop-min : (xs : List A) (k : ℕ) → drop (min k (length xs)) xs ≡ drop k xs
  drop-min xs k = elim (Bool-cases (leb k (length xs))) [
    | inl e ↦ ap (λ b. drop (if b then k else length xs) xs) e
    | inr e ↦
        ap (λ b. drop (if b then k else length xs) xs) e
        ∙ drop-all (length xs) xs (omega arith)
        ∙ sym (drop-all k xs (ground arith))
  ]

  take-enough : (xs : List A) (k j : ℕ) → length xs ≤ k → length xs ≤ j → take k xs ≡ take j xs
  take-enough xs k j h h' = take-all k xs h ∙ sym (take-all j xs h')

  -- The code's bounds take the same part as the plain ones.
  take-clamp :
      (xs : List A) (offset limit : ℕ)
      → take
          (min (min offset (length xs) + limit) (length xs) - min offset (length xs))
          (drop (min offset (length xs)) xs)
        ≡ take limit (drop offset xs)
  take-clamp xs offset limit =
      let start = min offset (length xs) in
      let k = min (start + limit) (length xs) - start in
      let cut = length-drop offset xs in
      ap (take k) (drop-min xs offset) ∙ (elim (Bool-cases (leb (start + limit) (length xs))) [
        | inl e ↦ ap (λ k. take k (drop offset xs)) (ground arith)
        | inr e ↦ take-enough (drop offset xs) k limit (ground (arith, cut)) (ground (arith, cut))
      ])

-- A page of positions is the part of all positions, in the order of the investors, from the offset
-- on and of at most the limit and at most 100 positions; it is empty when the offset is beyond the
-- last one, and the call never traps.
pub get_positions_page-eq :
    (s : FinancingPool) (id offset limit : ℕ)
    → get_positions_page s id offset limit
      ≡ ok (take (min limit 100) (drop offset (get_positions s id)))
unfolding get_positions_page
get_positions_page-eq s id offset limit =
    let all = get_positions s id in
    let start = min offset (length all) in
    let k = min (start + min limit 100) (length all) - start in
    let page = page_from-eq all start k (ground arith) in
    page ∙ ap ok (take-clamp all offset (min limit 100))
