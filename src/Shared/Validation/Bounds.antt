-- ===== src/Shared/Validation/Bounds.antt =====
-- Amounts in basis points, of contracts/shared/src/validation.rs: their values and bounds.
use stellar_invoice_finance.Prelude.{
  ℕ, ◌-◌, ◌*◌, ◌/◌, ◌^◌, ◌≤◌, ◌≡◌, refl, arith, ℤ, pos, checked, ltb, ◌==◌, checked-eq_some, ◌*ℤ◌,
  ◌/ℤ◌, ap, sym, ◌∙◌, some, checked_mul, checked_div, if◌then◌else◌, Option-cases, inl, inr,
}
use native.Mathlib.Nat.{
  one-le-pow, div-mul-le_self, div-div-eq-div-mul, mul-div-mul_left, mul-le-mul_left,
}
use stellar_invoice_finance.Shared.Host.{Outcome, ok, err, panic}
use stellar_invoice_finance.Shared.Errors.{arithmetic_overflow}
use stellar_invoice_finance.Shared.Validation.{
  scale_bps, checked_pow10, ok_or, ◌>>=◌, bps_of, normalize_amount, denormalize_amount,
  bps_of_normalized,
}

*ℤ_pos : (a b : ℕ) → pos a *ℤ pos b ≡ pos (a * b)
unfolding ◌*ℤ◌
*ℤ_pos a b = ground arith

/ℤ_pos : (a b : ℕ) → ◌/ℤ◌ (pos a) (pos b) ≡ pos (a / b)
unfolding ◌/ℤ◌
/ℤ_pos a b = refl

-- A checked operation that has a result has the exact one.
pub checked_mul-eq_some : (a b : ℕ) (r : ℤ) → checked_mul (pos a) (pos b) ≡ some r → r ≡ pos (a * b)
checked_mul-eq_some a b r h = sym (checked-eq_some (pos a *ℤ pos b) r h) ∙ *ℤ_pos a b

pub checked_div-eq_some :
    (a b : ℕ) (r : ℤ) → 1 ≤ b → checked_div (pos a) (pos b) ≡ some r → r ≡ pos (a / b)
checked_div-eq_some a b r p h =
    let h' : checked (◌/ℤ◌ (pos a) (pos b)) ≡ some r = ground (arith, h) in
    sym (checked-eq_some (◌/ℤ◌ (pos a) (pos b)) r h') ∙ /ℤ_pos a b

pub scale_bps-eq_ok : (n bps : ℕ) (r : ℤ) → scale_bps (pos n) bps ≡ ok r → r ≡ pos (n * bps / 10000)
unfolding scale_bps
scale_bps-eq_ok n bps r h = elim (Option-cases (checked_mul (pos n) (pos bps))) [
  | inl e ↦ ground (arith, e)
  | inr (v, e) ↦
      let v' = checked_mul-eq_some n bps v e in
      ground (arith, e, v', checked_div-eq_some (n * bps) 10000 r)
]

pub bps_of-eq_ok : (n bps : ℕ) (r : ℤ) → bps_of (pos n) bps ≡ ok r → r ≡ pos (n * bps / 10000)
unfolding bps_of
bps_of-eq_ok n bps r h = ground (arith, scale_bps-eq_ok n bps r)

-- A number of a token's units as that of standard units, and back.
abbrev pub normalized : ℕ → ℕ → ℕ
normalized n d = if d == 7 then n else if ltb d 7 then n * 10 ^ (7 - d) else n / 10 ^ (d - 7)

abbrev pub denormalized : ℕ → ℕ → ℕ
denormalized n d = if d == 7 then n else if ltb d 7 then n / 10 ^ (7 - d) else n * 10 ^ (d - 7)

checked_pow10-eq_some : (k : ℕ) (v : ℤ) → checked (pos (10 ^ k)) ≡ some v → v ≡ pos (10 ^ k)
checked_pow10-eq_some k v h = sym (checked-eq_some (pos (10 ^ k)) v h)

scale_up-eq_ok :
    (n k : ℕ) (r : ℤ)
    → (ok_or (checked_pow10 k) arithmetic_overflow >>= λ scale.
        ok_or (checked_mul (pos n) scale) arithmetic_overflow)
      ≡ ok r
    → r ≡ pos (n * 10 ^ k)
scale_up-eq_ok n k r h = elim (Option-cases (checked_pow10 k)) [
  | inl e ↦ ground (arith, e)
  | inr (v, e) ↦ ground (arith, e, checked_pow10-eq_some k v e, checked_mul-eq_some n (10 ^ k) r)
]

scale_down-eq_ok :
    (n k : ℕ) (r : ℤ)
    → (ok_or (checked_pow10 k) arithmetic_overflow >>= λ scale.
        ok_or (checked_div (pos n) scale) arithmetic_overflow)
      ≡ ok r
    → r ≡ pos (n / 10 ^ k)
scale_down-eq_ok n k r h = elim (Option-cases (checked_pow10 k)) [
  | inl e ↦ ground (arith, e)
  | inr (v, e) ↦ ground (
    arith,
    e,
    checked_pow10-eq_some k v e,
    checked_div-eq_some n (10 ^ k) r (one-le-pow k 10 (omega arith)),
  )
]

-- A chain that gives a result passes through the result of its first part.
>>=-eq_ok :
    {A B : Type 0} (m : Outcome A) (f : A → Outcome B) (b : B)
    → (m >>= f) ≡ ok b
    → (a : A) × (m ≡ ok a) × (f a ≡ ok b)
>>=-eq_ok (ok a) f b h = (a, refl, h)
>>=-eq_ok (err e) f b h = ground (arith, h)
>>=-eq_ok panic f b h = ground (arith, h)

normalize_amount-eq_ok :
    (n d : ℕ) (r : ℤ) → normalize_amount (pos n) d ≡ ok r → r ≡ pos (normalized n d)
unfolding normalize_amount
normalize_amount-eq_ok n d r h =
    ground (arith, scale_up-eq_ok n (7 - d) r, scale_down-eq_ok n (d - 7) r)

denormalize_amount-eq_ok :
    (n d : ℕ) (r : ℤ) → denormalize_amount (pos n) d ≡ ok r → r ≡ pos (denormalized n d)
unfolding denormalize_amount
denormalize_amount-eq_ok n d r h =
    ground (arith, scale_up-eq_ok n (d - 7) r, scale_down-eq_ok n (7 - d) r)

-- A share of an amount, by way of standard units.
pub share : ℕ → ℕ → ℕ → ℕ
share n bps d = denormalized (normalized n d * bps / 10000) d

pub bps_of_normalized-eq_ok :
    (n bps d : ℕ) (r : ℤ) → bps_of_normalized (pos n) bps d ≡ ok r → r ≡ pos (share n bps d)
unfolding bps_of_normalized share
bps_of_normalized-eq_ok n bps d r h =
    let h' : (normalize_amount (pos n) d >>= λ x. scale_bps x bps >>= λ y. denormalize_amount y d)
        ≡ ok r =
      ground (arith, h) in
    let (x, e, h1) = >>=-eq_ok (normalize_amount (pos n) d) _ r h' in
    let (y, f, h2) = >>=-eq_ok (scale_bps x bps) _ r h1 in
    let x' = normalize_amount-eq_ok n d x e in
    let f' : scale_bps (pos (normalized n d)) bps ≡ ok y = ground (arith, f, x') in
    let y' = scale_bps-eq_ok (normalized n d) bps y f' in
    let g : denormalize_amount (pos (normalized n d * bps / 10000)) d ≡ ok r =
      ground (arith, h2, y') in
    denormalize_amount-eq_ok (normalized n d * bps / 10000) d r g

cancel_scale : (n c bps : ℕ) → 1 ≤ c → n * c * bps / 10000 / c ≡ n * bps / 10000
cancel_scale n c bps h =
    let same : n * c * bps ≡ c * (n * bps) = omega arith in
    let swap : 10000 * c ≡ c * 10000 = omega arith in
    ap (λ x. x / 10000 / c) same
    ∙ div-div-eq-div-mul (c * (n * bps)) 10000 c
    ∙ ap (λ x. c * (n * bps) / x) swap
    ∙ mul-div-mul_left (n * bps) 10000 h

-- For a token of at most 7 decimals no precision is lost on the way.
pub share-eq : (n bps d : ℕ) → d ≤ 7 → share n bps d ≡ n * bps / 10000
unfolding share
share-eq n bps d h =
    ground (arith, cancel_scale n (10 ^ (7 - d)) bps (one-le-pow (7 - d) 10 (omega arith)))

round_down-le : (n c bps : ℕ) → n / c * bps / 10000 * c * 10000 ≤ n * bps
round_down-le n c bps =
    let a = div-mul-le_self (n / c * bps) 10000 in
    let b = mul-le-mul_left c a in
    let e = mul-le-mul_left bps (div-mul-le_self n c) in
    let x : n / c * bps / 10000 * c * 10000 ≡ c * (n / c * bps / 10000 * 10000) = omega arith in
    let y : bps * (n / c * c) ≡ c * (n / c * bps) = omega arith in omega (arith, a, b, e, x, y)

-- A share of an amount is at most its basis points of the amount.
pub share-le : (n bps d : ℕ) → share n bps d * 10000 ≤ n * bps
unfolding share
share-le n bps d =
    let same = cancel_scale n (10 ^ (7 - d)) bps (one-le-pow (7 - d) 10 (omega arith)) in
    ground (arith, same, round_down-le n (10 ^ (d - 7)) bps, div-mul-le_self (n * bps) 10000)
