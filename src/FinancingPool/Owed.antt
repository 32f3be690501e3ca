-- ===== src/FinancingPool/Owed.antt =====
-- What a pool of contracts/financing_pool/src/lib.rs is owed: the face value, the late penalty and
-- what has been repaid.
use stellar_invoice_finance.Prelude.{
  ℕ, ◌+◌, ◌*◌, ◌/◌, ◌≤◌, ◌<◌, ◌≡◌, refl, arith, true, false, Bool, some, ℤ, pos, negsuc, ltb, leb_ℤ,
  checked_add, checked_add-eq_some, if◌then◌else◌, Option-some, not, ◌&&◌, ◌==◌, ◌≤ℤ◌, Bool-cases,
  Option-cases, inl, inr,
}
use stellar_invoice_finance.Shared.{Env, enter, Pool, Symbol, ok, Outcome-cases}
use stellar_invoice_finance.Shared.Validation.{bps_of}
use stellar_invoice_finance.Shared.Validation.Bounds.{bps_of-eq_ok}
use stellar_invoice_finance.PriceOracle.{PriceOracle, convert, get_price, scale_price}
use stellar_invoice_finance.FinancingPool.State.{FinancingPool, convert_if_needed}
use stellar_invoice_finance.FinancingPool.Repayment.{with_penalty, credit}

-- The late penalty of a face value.
abbrev pub penalty_of : ℕ → ℕ → Bool → ℕ
penalty_of face bps applied = if applied then face * bps / 10000 else 0

-- A pool of invoice `n` in good order: it owes its face value and the penalty that was applied, and
-- is open only while less than that has been repaid.
pub record IsPool (n : ℕ) (p : Pool) : Type 0 where
  pub face : ℕ
  pub repaid : ℕ
  pub id_is : p.invoice_id ≡ n
  pub face_is : p.face_value ≡ pos face
  pub positive : 1 ≤ face
  pub penalty_bps : p.late_penalty_bps ≤ 10000
  pub nothing_funded : p.total_funded ≡ pos 0
  pub owed_is : p.total_owed ≡ pos (face + penalty_of face p.late_penalty_bps p.penalty_applied)
  pub repaid_is : p.repaid_amount ≡ pos repaid
  pub open_owes :
      p.is_closed ≡ false → repaid < face + penalty_of face p.late_penalty_bps p.penalty_applied

-- What the penalty does: it is applied when the payment is late, there is one, and it was not
-- applied before.
pub with_penalty-eq_ok :
    (env : Env) (due : ℕ) (p q : Pool) (face owed : ℕ)
    → with_penalty env due p ≡ ok q
    → p.face_value ≡ pos face
    → p.total_owed ≡ pos owed
    → q ≡ (
        if not p.penalty_applied && (ltb 0 p.late_penalty_bps && ltb due env.now)
        then record p {
          total_owed = pos (owed + face * p.late_penalty_bps / 10000);
          penalty_applied = true;
        }
        else p)
unfolding with_penalty
with_penalty-eq_ok env due p q face owed h ef eo =
    elim (Bool-cases (not p.penalty_applied && (ltb 0 p.late_penalty_bps && ltb due env.now))) [
      | inr on_time ↦ ground (arith, h, on_time)
      | inl late ↦ elim (Outcome-cases (bps_of p.face_value p.late_penalty_bps)) [
        | inr (inl (x, e)) ↦ ground (arith, h, late, e)
        | inr (inr e) ↦ ground (arith, h, late, e)
        | inl (x, e) ↦
            let e' : bps_of (pos face) p.late_penalty_bps ≡ ok x = ground (arith, e, ef) in
            let x' = bps_of-eq_ok face p.late_penalty_bps x e' in
            let (r, f) =
              Option-some (checked_add p.total_owed x) (λ z. ground (arith, h, late, e, z)) in
            let f' : checked_add (pos owed) (pos (face * p.late_penalty_bps / 10000)) ≡ some r =
              ground (arith, f, x', eo) in
            let r' = checked_add-eq_some owed (face * p.late_penalty_bps / 10000) r f' in
            ground (arith, h, late, e, f, r')
      ]
    ]

pub credit-eq_ok :
    (a b : ℕ) (p q : Pool)
    → credit (pos a) p ≡ ok q
    → p.repaid_amount ≡ pos b
    → q ≡ record p {
      repaid_amount = pos (b + a);
      is_closed = if leb_ℤ p.total_owed (pos (b + a)) then true else p.is_closed;
    }
unfolding credit
credit-eq_ok a b p q h e =
    let (r, f) = Option-some (checked_add p.repaid_amount (pos a)) (λ z. ground (arith, h, z)) in
    let f' : checked_add (pos b) (pos a) ≡ some r = ground (arith, f, e) in
    let r' = checked_add-eq_some b a r f' in ground (arith, h, f, r')

-- A conversion that succeeds gives a positive amount.
convert-le :
    (env : Env) (a : ℕ) (from to : Symbol) (r : ℤ) (o o' : PriceOracle)
    → 1 ≤ a
    → convert env (pos a) from to o ≡ ok (r, o')
    → pos 1 ≤ℤ r
unfolding convert get_price
convert-le env a from to r o o' k h = elim (Bool-cases (from == to)) [
  | inl e ↦ ground (arith, h, e, k)
  | inr e ↦
      let (found, f) = Option-some (o.price from to) (λ z. ground (arith, h, e, z)) in
      let (c, g) =
        Option-some (scale_price (pos a) found.price) (λ z. ground (arith, h, e, f, z)) in
      ground (arith, h, e, f, g)
]

pub positive-eq_pos : (r : ℤ) → pos 1 ≤ℤ r → (b : ℕ) × (1 ≤ b) × (r ≡ pos b)
positive-eq_pos (pos b) h = (b, ground arith, refl)
positive-eq_pos (negsuc b) h = absurd (ground arith)

pub convert_if_needed-eq_ok :
    (env : Env) (oracle : PriceOracle) (usdc : Symbol) (a : ℕ) (currency : Symbol) (r : ℤ)
    (s s' : FinancingPool)
    → 1 ≤ a
    → convert_if_needed env oracle usdc (pos a) currency s ≡ ok (r, s')
    → (b : ℕ) × (1 ≤ b) × (r ≡ pos b) × (s' ≡ s)
unfolding convert_if_needed
convert_if_needed-eq_ok env oracle usdc a currency r s s' k h = elim (Option-cases s.price_oracle) [
  | inl e ↦ (a, k, ground (arith, h, e), ground (arith, h, e))
  | inr (addr, e) ↦ elim (Outcome-cases (convert (enter env addr) (pos a) currency usdc oracle)) [
    | inr (inl (x, f)) ↦ absurd (ground (arith, h, e, f))
    | inr (inr f) ↦ absurd (ground (arith, h, e, f))
    | inl ((x, o), f) ↦
        let (b, least, x') =
          positive-eq_pos x (convert-le (enter env addr) a currency usdc x oracle o k f) in
        (b, least, ground (arith, h, e, f, x'), ground (arith, h, e, f))
  ]
]
