-- ===== src/Prelude/Int.antt =====
-- Signed integers over the native numbers, and Rust's checked and saturating `i128` operations.
use Prim.Native.Nat.{ℕ, suc, ◌+◌, ◌-◌, ◌*◌, ◌/◌, ◌^◌, ◌≤◌, ◌<◌}
use mathlib.Core.Path.{◌≡◌, sym, ◌∙◌, ap}
use mathlib.Core.Bool.{Bool, false, ◌&&◌}
use mathlib.Core.Option.{Option, none, some}
use native.Mathlib.Omega.{arith}
use stellar_invoice_finance.Prelude.Tests.{ltb, leb, if◌then◌else◌}

-- `negsuc n` is -(n + 1).
pub data ℤ : Type 0 where
  pos : ℕ → ℤ
  negsuc : ℕ → ℤ

abbrev pub pos_part : ℤ → ℕ
pos_part (pos n) = n
pos_part (negsuc n) = 0

abbrev pub neg_part : ℤ → ℕ
neg_part (pos n) = 0
neg_part (negsuc n) = suc n

abbrev pub sub_ℕ : ℕ → ℕ → ℤ
sub_ℕ a b = if leb b a then pos (a - b) else negsuc (b - a - 1)

infixl 65 ◌+ℤ◌ ◌-ℤ◌
infixl 70 ◌*ℤ◌
infix 50 ◌≤ℤ◌
unfoldable pub ◌+ℤ◌ : ℤ → ℤ → ℤ
a +ℤ b = sub_ℕ (pos_part a + pos_part b) (neg_part a + neg_part b)

unfoldable pub ◌-ℤ◌ : ℤ → ℤ → ℤ
a -ℤ b = sub_ℕ (pos_part a + neg_part b) (neg_part a + pos_part b)

unfoldable pub ◌*ℤ◌ : ℤ → ℤ → ℤ
a *ℤ b =
    sub_ℕ (pos_part a * pos_part b + neg_part a * neg_part b)
      (pos_part a * neg_part b + neg_part a * pos_part b)

-- Division rounds towards zero.
unfoldable pub ◌/ℤ◌ : ℤ → ℤ → ℤ
◌/ℤ◌ (pos a) (pos b) = pos (a / b)
◌/ℤ◌ (pos a) (negsuc b) = sub_ℕ 0 (a / suc b)
◌/ℤ◌ (negsuc a) (pos b) = sub_ℕ 0 (suc a / b)
◌/ℤ◌ (negsuc a) (negsuc b) = pos (suc a / suc b)

abbrev pub ◌≤ℤ◌ : ℤ → ℤ → Type 0
a ≤ℤ b = pos_part a + neg_part b ≤ pos_part b + neg_part a

abbrev pub ltb_ℤ : ℤ → ℤ → Bool
ltb_ℤ a b = ltb (pos_part a + neg_part b) (pos_part b + neg_part a)

abbrev pub leb_ℤ : ℤ → ℤ → Bool
leb_ℤ a b = leb (pos_part a + neg_part b) (pos_part b + neg_part a)

abbrev pub eq_ℤ : ℤ → ℤ → Bool
eq_ℤ a b = leb_ℤ a b && leb_ℤ b a

-- With one lemma for each operation `omega` works while the operations stay shut.
pub +ℤ_parts :
    (a b : ℤ)
    → pos_part (a +ℤ b) + neg_part a + neg_part b ≡ neg_part (a +ℤ b) + pos_part a + pos_part b
unfolding ◌+ℤ◌
+ℤ_parts a b = ground arith

pub -ℤ_parts :
    (a b : ℤ)
    → pos_part (a -ℤ b) + neg_part a + pos_part b ≡ neg_part (a -ℤ b) + pos_part a + neg_part b
unfolding ◌-ℤ◌
-ℤ_parts a b = ground arith

pub eq_of_parts : (a b : ℤ) → pos_part a + neg_part b ≡ pos_part b + neg_part a → a ≡ b
eq_of_parts a b h = ground arith

pub ruleset int_laws = (arith, +ℤ_parts, -ℤ_parts, eq_of_parts)

abbrev pub i128_max : ℤ
i128_max = pos (2 ^ 127 - 1)

abbrev pub i128_min : ℤ
i128_min = negsuc (2 ^ 127 - 1)

-- The result of a checked operation: `None` when it does not fit.
unfoldable pub checked : ℤ → Option ℤ
checked a = if leb_ℤ i128_min a && leb_ℤ a i128_max then some a else none

abbrev pub checked_add : ℤ → ℤ → Option ℤ
checked_add a b = checked (a +ℤ b)

abbrev pub checked_sub : ℤ → ℤ → Option ℤ
checked_sub a b = checked (a -ℤ b)

abbrev pub checked_mul : ℤ → ℤ → Option ℤ
checked_mul a b = checked (a *ℤ b)

abbrev pub checked_div : ℤ → ℤ → Option ℤ
checked_div a b = if eq_ℤ b (pos 0) then none else checked (◌/ℤ◌ a b)

-- What saturating operations do with a result that does not fit.
unfoldable pub saturate : ℤ → ℤ
saturate a = if ltb_ℤ a i128_min then i128_min else if ltb_ℤ i128_max a then i128_max else a

abbrev pub saturating_add : ℤ → ℤ → ℤ
saturating_add a b = saturate (a +ℤ b)

abbrev pub saturating_sub : ℤ → ℤ → ℤ
saturating_sub a b = saturate (a -ℤ b)

pub checked-eq_some : (a b : ℤ) → checked a ≡ some b → a ≡ b
unfolding checked
checked-eq_some a b h = ground arith

pub checked_fits : (a : ℤ) → i128_min ≤ℤ a → a ≤ℤ i128_max → checked a ≡ some a
unfolding checked
checked_fits a h k = ground arith

pub +ℤ_pos : (a b : ℕ) → pos a +ℤ pos b ≡ pos (a + b)
unfolding ◌+ℤ◌
+ℤ_pos a b = ground arith

pub -ℤ_pos : (a b : ℕ) → b ≤ a → pos a -ℤ pos b ≡ pos (a - b)
unfolding ◌-ℤ◌
-ℤ_pos a b h = ground (arith, h)

pub checked_add-eq_some : (a b : ℕ) (r : ℤ) → checked_add (pos a) (pos b) ≡ some r → r ≡ pos (a + b)
checked_add-eq_some a b r h = sym (checked-eq_some (pos a +ℤ pos b) r h) ∙ +ℤ_pos a b

pub checked_add_fits :
    (a b : ℕ) → a + b < 2 ^ 127 → checked_add (pos a) (pos b) ≡ some (pos (a + b))
checked_add_fits a b h =
    ap checked (+ℤ_pos a b) ∙ checked_fits (pos (a + b)) (omega arith) (omega (arith, h))

pub leb_ℤ-below : (a b : ℤ) → leb_ℤ a b ≡ false → b +ℤ pos 1 ≤ℤ a
leb_ℤ-below a b h = ground (arith, h, +ℤ_parts b (pos 1))
